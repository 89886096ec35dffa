-- ===== src/Client/AudioQueue/Order.antt =====
-- The queue over any interleaving of turns: its bound, its order, and its closing.
use mathlib.Core.List.{append_assoc, append-nil}
use realtime_voice_agent.Common.{
  ℕ, ◌≡◌, ◌≤◌, ◌∙◌, refl, sym, ap, Bool, true, false, not, ◌&&◌, ◌||◌, ltb, List, [], ◌∷◌, ◌++◌,
  length, length-append, arith, Bool-cases, inl, inr,
}
use realtime_voice_agent.Client.AudioQueue.{
  Queue, Turn, waits, raises, returns, put, get, task_done, close,
}

pub data Call {ℓ} (T : Type ℓ) : Type ℓ where
  puts : T → Call T
  gets dones : Call T
  closes : Bool → Call T

-- The queue, with what its calls to `put` have taken and its calls to `get` have returned.
pub record History {ℓ} (T : Type ℓ) : Type ℓ where
  pub queue : Queue T
  pub taken : List T
  pub given : List T

module _ {ℓ} {T : Type ℓ} where
  abbrev pub took : T → Turn (Unit {0}) → List T
  took item waits = []
  took item (raises e) = []
  took item (returns t) = item ∷ []

  abbrev pub gave : Turn T → List T
  gave waits = []
  gave (raises e) = []
  gave (returns item) = item ∷ []

  unfoldable pub step : Call T → History T → History T
  step (puts item) h = record h {
    queue = (put item h.queue).0;
    taken = h.taken ++ took item (put item h.queue).1;
  }
  step gets h = record h { queue = (get h.queue).0; given = h.given ++ gave (get h.queue).1 }
  step dones h = record h { queue = (task_done h.queue).0 }
  step (closes discard) h = record h { queue = close discard h.queue }

  unfoldable pub run : List (Call T) → History T → History T
  run [] h = h
  run (c ∷ cs) h = run cs (step c h)

  -- Within the capacity, which never changes.
  pub record IsBounded (n : ℕ) (q : Queue T) : Type ℓ where
    pub capacity : q.capacity ≡ n
    pub within : length q.items ≤ n

  step-IsBounded :
      (n : ℕ) (c : Call T) (h : History T) → IsBounded n h.queue → IsBounded n (step c h).queue
  unfolding step put get task_done close
  step-IsBounded n (puts item) h v = record {
    capacity = ground (arith, v.capacity);
    within = ground (arith, v.capacity, v.within, length-append h.queue.items (item ∷ []));
  }
  step-IsBounded n gets h v = record {
    capacity = ground (arith, v.capacity);
    within = ground (arith, v.within);
  }
  step-IsBounded n dones h v = record {
    capacity = ground (arith, v.capacity);
    within = ground (arith, v.within);
  }
  step-IsBounded n (closes discard) h v = record {
    capacity = ground (arith, v.capacity);
    within = ground (arith, v.within);
  }

  -- A queue within its capacity stays so, in whatever order tasks put, get, finish and close.
  pub run-IsBounded :
      (n : ℕ) (cs : List (Call T)) (h : History T)
      → IsBounded n h.queue
      → IsBounded n (run cs h).queue
  unfolding run
  run-IsBounded n [] h v = v
  run-IsBounded n (c ∷ cs) h v = run-IsBounded n cs (step c h) (step-IsBounded n c h v)

  -- Nothing is lost, made up or put out of order.
  abbrev pub IsFifo : History T → Type ℓ
  IsFifo h = h.given ++ h.queue.items ≡ h.taken

  abbrev pub keeps_pending : Call T → Bool
  keeps_pending (puts item) = true
  keeps_pending gets = true
  keeps_pending dones = true
  keeps_pending (closes discard) = not discard

  abbrev pub all_keep : List (Call T) → Bool
  all_keep [] = true
  all_keep (c ∷ cs) = keeps_pending c && all_keep cs

  put-IsFifo : (item : T) (h : History T) → IsFifo h → IsFifo (step (puts item) h)
  unfolding step put
  put-IsFifo item h v =
      elim (Bool-cases (h.queue.closed || ltb (length h.queue.items) h.queue.capacity)) [
        | inr e ↦ rw e (v ∙ sym (append-nil h.taken))
        | inl e ↦ elim (Bool-cases h.queue.closed) [
          | inl f ↦ rw (e, f) (v ∙ sym (append-nil h.taken))
          | inr f ↦
              rw (e, f)
                (sym (append_assoc h.given h.queue.items (item ∷ [])) ∙ ap (λ x. x ++ item ∷ []) v)
        ]
      ]

  get-IsFifo :
      (q : Queue T) (xs given : List T)
      → q.items ≡ xs
      → (given ++ gave (get q).1) ++ (get q).0.items ≡ given ++ xs
  unfolding get
  get-IsFifo q [] given e = elim (Bool-cases q.closed) [
    | inl f ↦ rw (e, get, f, e) (append-nil (given ++ []) ∙ refl)
    | inr f ↦ rw (e, get, f, e) (append-nil (given ++ []) ∙ refl)
  ]
  get-IsFifo q (x ∷ xs) given e = rw (e, get) (append_assoc given (x ∷ []) xs)

  step-IsFifo : (c : Call T) (h : History T) → keeps_pending c ≡ true → IsFifo h → IsFifo (step c h)
  unfolding step task_done close
  step-IsFifo (puts item) h k v = unfold step in put-IsFifo item h v
  step-IsFifo gets h k v = get-IsFifo h.queue h.queue.items h.given refl ∙ v
  step-IsFifo dones h k v = ground (arith, v)
  step-IsFifo (closes true) h k v = absurd (cc)
  step-IsFifo (closes false) h k v = v

  -- As long as no close discards, in whatever order tasks put, get, finish and close: what was
  -- returned, followed by what is still queued, is what was taken, in that order.
  pub run-IsFifo :
      (cs : List (Call T)) (h : History T) → all_keep cs ≡ true → IsFifo h → IsFifo (run cs h)
  unfolding run
  run-IsFifo [] h k v = v
  run-IsFifo (c ∷ cs) h k v =
      run-IsFifo cs (step c h) (ground arith) (step-IsFifo c h (ground arith) v)
