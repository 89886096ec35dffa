-- ===== src/Worker/VoiceSession/Fence.antt =====
-- On callbacks of an earlier playback, over any calls of a session.
use realtime_voice_agent.Common.{
  ◌+◌, ◌≤◌, ◌<◌, ◌≡◌, true, false, some, List, [], ◌∷◌, arith, ok, Option-cases, inl, inr, eq_iff,
  text_key, nat_key, Text,
}
use realtime_voice_agent.Worker.VoiceSession.{
  Session, PlaybackRef, init, begin_playback, accepts_callback, finish_playback, cancel_playback,
  close_state, is_active, ref_eq,
}

pub data Call : Type 0 where
  begins closes : Call
  finishes cancels : PlaybackRef → Call

unfoldable pub step : Call → Session → Session
step begins s = (begin_playback s).0
step (finishes p) s = (finish_playback p s).0
step (cancels p) s = (cancel_playback p s).0
step closes s = close_state s

unfoldable pub run : List Call → Session → Session
run [] s = s
run (c ∷ cs) s = run cs (step c s)

-- The generation of the reference has been reached, and it is not the active playback.
pub record IsPast (p : PlaybackRef) (s : Session) : Type 0 where
  pub reached : p.generation ≤ s.generation
  pub inactive : is_active p s.active_playback ≡ false

pub step-IsPast : (p : PlaybackRef) (c : Call) (s : Session) → IsPast p s → IsPast p (step c s)
unfolding step begin_playback finish_playback cancel_playback close_state
step-IsPast p begins s v = record {
  reached = ground (arith, v.reached);
  inactive = ground (arith, v.reached, v.inactive);
}
step-IsPast p (finishes q) s v = record {
  reached = ground (arith, v.reached);
  inactive = ground (arith, v.inactive);
}
step-IsPast p (cancels q) s v = record {
  reached = ground (arith, v.reached);
  inactive = ground (arith, v.inactive);
}
step-IsPast p closes s v = record {
  reached = ground (arith, v.reached);
  inactive = ground (arith, v.inactive);
}

pub run-IsPast : (p : PlaybackRef) (cs : List Call) (s : Session) → IsPast p s → IsPast p (run cs s)
unfolding run
run-IsPast p [] s v = v
run-IsPast p (c ∷ cs) s v = run-IsPast p cs (step c s) (step-IsPast p c s v)

-- Generations only grow, and the active playback is of this connection and of a generation reached.
pub record IsOwned (s : Session) : Type 0 where
  pub current :
      (p : PlaybackRef)
      → s.active_playback ≡ some p
      → (p.connection_epoch ≡ s.connection_epoch) × (p.generation ≤ s.generation)

step-IsOwned : (c : Call) (s : Session) → IsOwned s → IsOwned (step c s)
unfolding step begin_playback finish_playback cancel_playback close_state
step-IsOwned begins s v = record {
  current = λ p h. (ground (arith, v.current p), ground (arith, v.current p));
}
step-IsOwned (finishes q) s v = record {
  current = λ p h. (ground (arith, v.current p), ground (arith, v.current p));
}
step-IsOwned (cancels q) s v = record {
  current = λ p h. (ground (arith, v.current p), ground (arith, v.current p));
}
step-IsOwned closes s v = record {
  current = λ p h. (ground (arith, v.current p), ground (arith, v.current p));
}

-- Whatever calls a new session gets, its active playback is of its own connection and of a
-- generation that it has reached.
pub run-IsOwned : (cs : List Call) (s : Session) → IsOwned s → IsOwned (run cs s)
unfolding run
run-IsOwned [] s v = v
run-IsOwned (c ∷ cs) s v = run-IsOwned cs (step c s) (step-IsOwned c s v)

pub init-IsOwned : (epoch generated : Text) → IsOwned (init epoch generated)
unfolding init
init-IsOwned epoch generated = record { current = λ p h. absurd (cc) }

-- The calls that end a playback: finishing or cancelling it, and closing the session.
abbrev pub IsEnd : PlaybackRef → Call → Type 0
IsEnd p begins = ⊥
IsEnd p (finishes q) = q ≡ p
IsEnd p (cancels q) = q ≡ p
IsEnd p closes = Unit

ref_eq_lem : (p q : PlaybackRef) → ref_eq p q ≡ true → p ≡ q
ref_eq_lem p q h =
    ground (arith, eq_iff p.connection_epoch q.connection_epoch, eq_iff p.generation q.generation)

pub accepted_reached :
    (p : PlaybackRef) (s : Session)
    → IsOwned s
    → accepts_callback p s ≡ true
    → p.generation ≤ s.generation
unfolding accepts_callback
accepted_reached p s v h = elim (Option-cases s.active_playback) [
  | inl e ↦ absurd (ground arith)
  | inr (q, e) ↦ ground (arith, v.current q, ref_eq_lem p q)
]

pub end-IsPast :
    (p : PlaybackRef) (c : Call) (s : Session)
    → IsEnd p c
    → IsOwned s
    → accepts_callback p s ≡ true
    → IsPast p (step c s)
unfolding step finish_playback cancel_playback close_state accepts_callback
end-IsPast p begins s e v h = absurd e
end-IsPast p (finishes q) s e v h =
    let r = accepted_reached p s v (unfold accepts_callback in h) in
    record { reached = ground (arith, r); inactive = ground (arith, e) }
end-IsPast p (cancels q) s e v h =
    let r = accepted_reached p s v (unfold accepts_callback in h) in
    record { reached = ground (arith, r); inactive = ground (arith, e) }
end-IsPast p closes s e v h =
    let r = accepted_reached p s v (unfold accepts_callback in h) in
    record { reached = ground (arith, r); inactive = ground arith }

-- A playback whose callbacks are accepted loses them for good at the call that ends it: after its
-- finish, its cancellation or the close of the session, and after any calls that follow (new playbacks included), none of its callbacks is accepted.
pub ended_playback_is_stale :
    (p : PlaybackRef) (c : Call) (cs : List Call) (s : Session)
    → IsOwned s
    → accepts_callback p s ≡ true
    → IsEnd p c
    → accepts_callback p (run cs (step c s)) ≡ false
unfolding accepts_callback
ended_playback_is_stale p c cs s v h e =
    let past = run-IsPast p cs (step c s) (end-IsPast p c s e v (unfold accepts_callback in h)) in
    ground (arith, past.inactive)

generation-step-le : (c : Call) (s : Session) → s.generation ≤ (step c s).generation
unfolding step begin_playback finish_playback cancel_playback close_state
generation-step-le begins s = ground arith
generation-step-le (finishes p) s = ground arith
generation-step-le (cancels p) s = ground arith
generation-step-le closes s = ground arith

generation-run-le : (cs : List Call) (s : Session) → s.generation ≤ (run cs s).generation
unfolding run
generation-run-le [] s = omega arith
generation-run-le (c ∷ cs) s =
    omega (arith, generation-step-le c s, generation-run-le cs (step c s))

begin_playback-generation :
    (s : Session) (p : PlaybackRef)
    → (begin_playback s).1 ≡ ok p
    → (p.generation ≡ s.generation + 1) × ((begin_playback s).0.generation ≡ s.generation + 1)
unfolding begin_playback
begin_playback-generation s p h = (ground arith, ground arith)

-- Two playbacks of a session, with any calls between their beginnings, have different generations,
-- and the later one the greater.
pub generations_increase :
    (s : Session) (cs : List Call) (p q : PlaybackRef)
    → (begin_playback s).1 ≡ ok p
    → (begin_playback (run cs (begin_playback s).0)).1 ≡ ok q
    → p.generation < q.generation
generations_increase s cs p q h k =
    let first = begin_playback-generation s p h in
    let later = begin_playback-generation (run cs (begin_playback s).0) q k in
    omega (arith, first, later, generation-run-le cs (begin_playback s).0)
