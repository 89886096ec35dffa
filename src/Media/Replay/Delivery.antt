-- ===== src/Media/Replay/Delivery.antt =====
-- Packets that arrive one after the other at the Worker's window and at the client's, against the
-- rule that keeps every sequence it has admitted.
use realtime_voice_agent.Common.{
  is_unique, ℕ, ◌+◌, ◌-◌, ◌≤◌, ◌<◌, ◌≡◌, ◌∙◌, refl, ap, subst, sym, Bool, true, false, not, ◌&&◌,
  ◌||◌, inl, inr, Option, none, some, List, [], ◌∷◌, nat_key, nat_eq, nat_eq_iff, arith, ltb, leb,
  all, if◌then◌else◌, Option-cases, Bool-cases,
}
use realtime_voice_agent.Common
use realtime_voice_agent.Common.Bits.{set_bit, one-test_bit}
use realtime_voice_agent.Media.Replay.{
  Window, init, commit, can_accept, client_acceptable, client_commit, slide, above, advance, offset,
}
use realtime_voice_agent.Media.Replay.History.{max_of, admits, contains_above, contains-none}
use realtime_voice_agent.Media.Replay.Refinement.{
  Represents, init-Represents, can_accept-admits, commit-Represents, raised-Represents,
  behind-Represents, slide_bits, first_contains,
}

-- What an end admits of the arrivals, newest first, before what it had `seen`.
unfoldable pub deliver : (ℕ → Window → Option Window) → List ℕ → Window → List ℕ → List ℕ
deliver receive [] w seen = seen
deliver receive (s ∷ ss) w seen = elim (receive s w) [
  | none ↦ deliver receive ss w seen
  | some w' ↦ deliver receive ss w' (s ∷ seen)
]

-- The same with the rule in place of a window.
unfoldable pub by_rule : List ℕ → List ℕ → List ℕ
by_rule [] seen = seen
by_rule (s ∷ ss) seen = elim (admits seen s) [
  | true ↦ by_rule ss (s ∷ seen)
  | false ↦ by_rule ss seen
]

data Outcome (r : Option Window) (seen : List ℕ) (s : ℕ) : Type 0 where
  refused : admits seen s ≡ false → r ≡ none → Outcome r seen s
  taken :
      (w' : Window)
      → admits seen s ≡ true
      → r ≡ some w'
      → Represents w' (s ∷ seen)
      → Outcome r seen s

-- An end whose every step follows the rule admits what the rule admits.
deliver-by_rule :
    (receive : ℕ → Window → Option Window) (ok : ℕ → Bool)
    → ((w : Window) (seen : List ℕ) (s : ℕ)
        → ok s ≡ true
        → Represents w seen
        → Outcome (receive s w) seen s)
    → (ss : List ℕ) (w : Window) (seen : List ℕ) → all ok ss ≡ true
    → Represents w seen
    → deliver receive ss w seen ≡ by_rule ss seen
unfolding deliver by_rule
deliver-by_rule receive ok f [] w seen a v = refl
deliver-by_rule receive ok f (s ∷ ss) w seen a v = elim (f w seen s (ground (arith, a)) v) [
  | refused m e ↦
      rw (m, by_rule, e, deliver, deliver-by_rule receive ok f ss w seen (ground (arith, a)) v)
  | taken w' m e v' ↦
      rw (
        m,
        by_rule,
        e,
        deliver,
        deliver-by_rule receive ok f ss w' (s ∷ seen) (ground (arith, a)) v',
      )
]

commit_outcome :
    (w : Window) (seen : List ℕ) (s : ℕ) → Represents w seen → Outcome (commit s w) seen s
unfolding commit
commit_outcome w seen s v =
    let same = can_accept-admits w seen s v in
    elim (Bool-cases (can_accept s w)) [
      | inr e ↦ refused (sym same ∙ e) (rw (e))
      | inl e ↦ elim (Bool-cases (above s w.highest)) [
        | inl u ↦
            let x : Window = record { highest = some s; bitmap = advance s w } in
            let c : commit s w ≡ some x = rw (e, u) in
            taken x (sym same ∙ e) c (commit-Represents w seen v s x c)
        | inr u ↦
            let x : Window = record w { bitmap = set_bit w.bitmap (offset s w.highest) } in
            let c : commit s w ≡ some x = rw (e, u) in
            taken x (sym same ∙ e) c (commit-Represents w seen v s x c)
      ]
    ]

client_acceptable_lem :
    (w : Window) (s : ℕ) → leb s 0xFFFFFFFF ≡ true → client_acceptable s w ≡ can_accept s w
unfolding client_acceptable can_accept
client_acceptable_lem w s l = rw (l)

client_commit_outcome :
    (w : Window) (seen : List ℕ) (s : ℕ)
    → leb s 0xFFFFFFFF ≡ true
    → Represents w seen
    → Outcome (client_commit s w) seen s
unfolding client_commit
client_commit_outcome w seen s l v =
    let same = sym (can_accept-admits w seen s v) ∙ sym (client_acceptable_lem w s l) in
    elim (Bool-cases (client_acceptable s w)) [
      | inr e ↦ refused (same ∙ e) (rw (e))
      | inl e ↦ elim (Option-cases w.highest) [
        | inl n ↦
            taken (record { highest = some s; bitmap = 1 }) (same ∙ e) (rw (e, n))
              (raised-Represents w seen v s 1 (rw (n))
                (λ d m k. one-test_bit d ∙ sym (first_contains w seen v s d (sym v.top ∙ n) k)))
        | inr (h, n) ↦ elim (Bool-cases (ltb h s)) [
          | inl u ↦
              taken (record { highest = some s; bitmap = slide w.bitmap (s - h) }) (same ∙ e)
                (rw (e, n, u))
                (raised-Represents w seen v s (slide w.bitmap (s - h)) (rw (n, u))
                  (λ d m k. slide_bits w seen v s h d (sym v.top ∙ n) (ground (arith, u)) m k))
          | inr u ↦
              taken (record w { bitmap = set_bit w.bitmap (h - s) }) (same ∙ e)
                (ground (arith, e, n, u)) (behind-Represents w seen v s h n (ground (arith, u)))
        ]
      ]
    ]

-- Whatever sequences arrive, in whatever order, the Worker's 64-bit window admits the same ones as
-- the rule that remembers every sequence admitted so far.
pub worker_window_refines_rule : (ss : List ℕ) → deliver commit ss init [] ≡ by_rule ss []
worker_window_refines_rule ss =
    deliver-by_rule commit (λ s. true) (λ w seen s _ v. commit_outcome w seen s v) ss init []
      (all_true ss) init-Represents
  where
    all_true : (xs : List ℕ) → all (λ s. true) xs ≡ true
    all_true [] = refl
    all_true (x ∷ xs) = all_true xs

-- Of sequences below 2^32, in whatever order they arrive, the client's window and the Worker's admit
-- the same ones.
pub windows_agree :
    (ss : List ℕ)
    → all (λ s. leb s 0xFFFFFFFF) ss ≡ true
    → deliver client_commit ss init [] ≡ deliver commit ss init []
windows_agree ss l =
    deliver-by_rule client_commit (λ s. leb s 0xFFFFFFFF) client_commit_outcome ss init [] l
      init-Represents
    ∙ sym (worker_window_refines_rule ss)

admits-contains : (seen : List ℕ) (s : ℕ) → admits seen s ≡ true → Common.contains seen s ≡ false
unfolding admits
admits-contains seen s a = elim (Option-cases (max_of seen)) [
  | inl e ↦ contains-none seen s e
  | inr (h, e) ↦ elim (Bool-cases (ltb h s)) [
    | inl u ↦ contains_above seen h s e (ground (arith, u))
    | inr u ↦ ground (arith, e, u, a)
  ]
]

by_rule-is_unique : (ss seen : List ℕ) → is_unique seen ≡ true → is_unique (by_rule ss seen) ≡ true
unfolding by_rule
by_rule-is_unique [] seen u = u
by_rule-is_unique (s ∷ ss) seen u = elim (Bool-cases (admits seen s)) [
  | inl e ↦
      rw (e, by_rule)
        (by_rule-is_unique ss (s ∷ seen) (ground (arith, admits-contains seen s e, u)))
  | inr e ↦ rw (e, by_rule) (by_rule-is_unique ss seen u)
]

-- Whatever sequences arrive, replays among them, the Worker admits none of them twice.
pub worker_admits_once : (ss : List ℕ) → is_unique (deliver commit ss init []) ≡ true
worker_admits_once ss =
    subst (λ xs. is_unique xs ≡ true) (sym (worker_window_refines_rule ss))
      (by_rule-is_unique ss [] refl)
