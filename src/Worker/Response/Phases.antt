-- ===== src/Worker/Response/Phases.antt =====
-- The phases of a response coordinator whose session is open, and the calls that do not stop it.
use realtime_voice_agent.Common.{
  ℕ, ◌+◌, ◌≡◌, refl, sym, ◌∙◌, subst, true, false, ◌&&◌, inl, inr, Option, none, some, List, [],
  ◌∷◌, length, ltb, arith, Text, text_key, nat_key, nat_eq_iff, eq_refl, is_some, Bool-cases,
  if◌then◌else◌,
}
use realtime_voice_agent.Common.Dict.{get, get-put}
use realtime_voice_agent.Worker.VoiceSession.{PlaybackRef, begin_playback}
use realtime_voice_agent.Worker.Response.{
  Coordinator, ResponseRecord, ResponseOutcome, ResponseKey, response_key, is_object, write, begin,
  new_record, accepts, note_media, forget, trim_terminal, remember_terminal, complete,
}

-- Idle; a response that streams; one that has completed and is played out; one that was stopped and
-- whose end is awaited. In each the session agrees about which playback is active.
pub data Phase (c : Coordinator) : Type 0 where
  idle : c.active ≡ none → c.playback ≡ none → c.session.active_playback ≡ none → Phase c
  streaming :
      (i : ℕ) (r : ResponseRecord)
      → c.active ≡ some i
      → c.playback ≡ some i
      → get i c.objects ≡ some r
      → r.outcome ≡ none
      → r.stop_sent ≡ false
      → r.playback_ended ≡ false
      → c.session.active_playback ≡ some r.target
      → Phase c
  playing_out :
      (i : ℕ) (r : ResponseRecord)
      → c.active ≡ none
      → c.playback ≡ some i
      → get i c.objects ≡ some r
      → r.outcome ≡ some ResponseOutcome.completed
      → r.stop_sent ≡ false
      → r.playback_ended ≡ false
      → c.session.active_playback ≡ some r.target
      → Phase c
  stopping :
      (i : ℕ) (r : ResponseRecord)
      → c.active ≡ none
      → c.playback ≡ some i
      → get i c.objects ≡ some r
      → is_some r.outcome ≡ true
      → r.stop_sent ≡ true
      → r.playback_ended ≡ false
      → c.session.active_playback ≡ none
      → Phase c

-- The phase depends on four fields.
pub record SameCore (c d : Coordinator) : Type 0 where
  pub session : d.session ≡ c.session
  pub objects : d.objects ≡ c.objects
  pub active : d.active ≡ c.active
  pub playback : d.playback ≡ c.playback

pub SameCore-Phase : (c d : Coordinator) → SameCore c d → Phase c → Phase d
SameCore-Phase c d e (idle a p s) = idle (ground (arith, a)) (ground (arith, p)) (rw e.session s)
SameCore-Phase c d e (streaming i r a p g o st en s) =
    streaming i r (ground (arith, a)) (ground (arith, p)) (rw e.objects g) o st en (rw e.session s)
SameCore-Phase c d e (playing_out i r a p g o st en s) =
    playing_out i r (ground (arith, a)) (ground (arith, p)) (rw e.objects g) o st en
      (rw e.session s)
SameCore-Phase c d e (stopping i r a p g o st en s) =
    stopping i r (ground (arith, a)) (ground (arith, p)) (rw e.objects g) o st en (rw e.session s)

forget-SameCore : (key : ResponseKey) (c : Coordinator) → SameCore c (forget key c)
unfolding forget
forget-SameCore key c = record {
  session = ground arith;
  objects = ground arith;
  active = ground arith;
  playback = ground arith;
}

trim_terminal-SameCore :
    (keys : List ResponseKey) (c : Coordinator) → SameCore c (trim_terminal keys c)
unfolding trim_terminal
trim_terminal-SameCore [] c = record {
  session = refl;
  objects = refl;
  active = refl;
  playback = refl;
}
trim_terminal-SameCore (k ∷ keys) c =
    let f = forget-SameCore k c in
    let t = trim_terminal-SameCore keys (forget k c) in
    elim (Bool-cases (ltb 32 (length (k ∷ keys)))) [
      | inl e ↦ rw e (record {
        session = t.session ∙ f.session;
        objects = t.objects ∙ f.objects;
        active = t.active ∙ f.active;
        playback = t.playback ∙ f.playback;
      })
      | inr e ↦ rw e (record { session = refl; objects = refl; active = refl; playback = refl })
    ]

pub remember_terminal-SameCore :
    (r : ResponseRecord) (c : Coordinator) → SameCore c (remember_terminal r c)
unfolding remember_terminal
remember_terminal-SameCore r c = trim_terminal-SameCore _ c

-- A call that changes nothing keeps the phase.
pub unchanged-Phase : (c d : Coordinator) → d ≡ c → Phase c → Phase d
unchanged-Phase c d e v = subst Phase (sym e) v

abbrev next_target : Coordinator → PlaybackRef
next_target c = record {
  connection_epoch = c.session.connection_epoch;
  generation = c.session.generation + 1;
}

pub is_object-some : (i : ℕ) (o : Option ℕ) → is_object i o ≡ true → o ≡ some i
is_object-some i none h = absurd (cc)
is_object-some i (some j) h = ground (arith, nat_eq_iff i j)

-- The record of the response that streams.
pub record Streams (c : Coordinator) (i : ℕ) (r : ResponseRecord) : Type 0 where
  pub playing : c.playback ≡ some i
  pub outcome : r.outcome ≡ none
  pub unstopped : r.stop_sent ≡ false
  pub unended : r.playback_ended ≡ false
  pub session : c.session.active_playback ≡ some r.target

pub Phase-Streams :
    (c : Coordinator) (i : ℕ) (r : ResponseRecord)
    → Phase c
    → c.active ≡ some i
    → get i c.objects ≡ some r
    → Streams c i r
Phase-Streams c i r (idle a p s) h g = absurd (cc)
Phase-Streams c i r (streaming j x a p f o st en s) h g =
    let same : j ≡ i = ground arith in
    let equal : x ≡ r = ground (arith, same) in
    record {
      playing = ground (arith, same);
      outcome = ground (arith, equal);
      unstopped = ground (arith, equal);
      unended = ground (arith, equal);
      session = ground (arith, equal);
    }
Phase-Streams c i r (playing_out j x a p f o st en s) h g = absurd (cc)
Phase-Streams c i r (stopping j x a p f o st en s) h g = absurd (cc)

module _ (c : Coordinator) (live : c.session.closed ≡ false) where
  pub begin-Phase : (id : Text) (epoch : ℕ) → Phase c → Phase (begin id epoch c).0
  unfolding begin begin_playback new_record
  begin-Phase id epoch (idle a p s) =
      streaming c.next_object (new_record id (next_target c) epoch) (ground arith) (ground arith)
        (ground (
          arith,
          eq_refl c.next_object,
          get-put c.next_object c.next_object (new_record id (next_target c) epoch) c.objects,
        ))
        refl refl refl (ground arith)
  begin-Phase id epoch (streaming i r a p g o st en s) =
      unchanged-Phase c _ (ground (arith, a)) (streaming i r a p g o st en s)
  begin-Phase id epoch (playing_out i r a p g o st en s) =
      unchanged-Phase c _ (ground (arith, a, p)) (playing_out i r a p g o st en s)
  begin-Phase id epoch (stopping i r a p g o st en s) =
      unchanged-Phase c _ (ground (arith, a, p)) (stopping i r a p g o st en s)

  pub note_media-Phase :
      (i : ℕ) (r : ResponseRecord) (n : ℕ)
      → get i c.objects ≡ some r
      → Phase c
      → Phase (note_media i r n c).0
  unfolding note_media
  note_media-Phase i r n g v = elim (Bool-cases (accepts i r c)) [
    | inl e ↦
        let a = is_object-some i c.active (unfold accepts in ground arith) in
        let x = Phase-Streams c i r v a g in
        let r' : ResponseRecord = record r {
          first_media_sequence =
              if is_some r.first_media_sequence then r.first_media_sequence else some n;
          last_media_sequence = some n;
        } in
        rw (e, note_media)
          (unfold write in
            streaming i r' a x.playing (ground (arith, eq_refl i, get-put i i r' c.objects))
              x.outcome x.unstopped x.unended x.session)
    | inr e ↦ unchanged-Phase c _ (ground (arith, e)) v
  ]

  pub complete-Phase :
      (i : ℕ) (r : ResponseRecord) → get i c.objects ≡ some r → Phase c → Phase (complete i r c).0
  unfolding complete
  complete-Phase i r g v =
      elim (Bool-cases (is_some r.first_media_sequence && is_some r.last_media_sequence)) [
        | inr e ↦ unchanged-Phase c _ (ground (arith, e)) v
        | inl e ↦ elim (Bool-cases (is_object i c.active && is_object i c.playback)) [
          | inr f ↦ unchanged-Phase c _ (ground (arith, e, f)) v
          | inl f ↦
              let a = is_object-some i c.active (ground arith) in
              let x = Phase-Streams c i r v a g in
              let r' : ResponseRecord = record r { outcome = some ResponseOutcome.completed } in
              let d : Coordinator = record (write i r' c) { active = none } in
              rw (e, f, complete)
                (SameCore-Phase d _ (remember_terminal-SameCore r' d) (
                  unfold write in
                  playing_out i r' refl x.playing
                    (ground (arith, eq_refl i, get-put i i r' c.objects)) refl x.unstopped x.unended
                    x.session))
        ]
      ]
