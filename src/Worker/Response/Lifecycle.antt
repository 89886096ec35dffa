-- ===== src/Worker/Response/Lifecycle.antt =====
-- Histories of a coordinator, and what a call does to its session.
use realtime_voice_agent.Common.{
  ℕ, ◌≡◌, refl, ◌∙◌, false, inl, inr, Option, none, some, List, [], ◌∷◌, arith, Text, text_key,
  nat_key, is_some, Bool-cases, Option-cases,
}
use realtime_voice_agent.Common.Dict.{get}
use realtime_voice_agent.Worker.VoiceSession.{
  Session, PlaybackRef, begin_playback, cancel_playback, finish_playback,
}
use realtime_voice_agent.Worker.VoiceSession.Fence
use realtime_voice_agent.Worker.VoiceSession.Fence.{IsPast}
use realtime_voice_agent.Worker.Response.{
  Coordinator, ResponseRecord, ResponseOutcome, PlaybackOutcome, begin, note_media, complete, fence,
  write,
}
use realtime_voice_agent.Worker.Response.Playback.{
  playback_started, start_record, playback_ended, settle_end, needs_finish,
}
use realtime_voice_agent.Worker.Response.Phases.{
  Phase, remember_terminal-SameCore, begin-Phase, note_media-Phase, complete-Phase,
}
use realtime_voice_agent.Worker.Response.Outcomes.{
  completed_state, complete_cases, fenced_state, fence_cases,
}
use realtime_voice_agent.Worker.Response.Views.{find_record_cases, end_record_cases}
use realtime_voice_agent.Worker.Response.Coherence.{
  fence-Phase, playback_started-Phase, playback_ended-Phase,
}

-- The calls of the binding, each on a record that it got from `begin`.
pub data Call : Type 0 where
  begins : Text → ℕ → Call
  notes : ℕ → ℕ → Call
  completes : ℕ → Call
  fences : ℕ → ResponseOutcome → Option Text → Call
  starts : Text → ℕ → ℕ → Call
  ends : Text → ℕ → PlaybackOutcome → ℕ → Option ℕ → Call

-- A call on a record that exists.
abbrev pub on_record : ℕ → Coordinator → (ResponseRecord → Coordinator) → Coordinator
on_record i c act = elim (get i c.objects) [ none ↦ c | some r ↦ act r ]

unfoldable pub step : Call → Coordinator → Coordinator
step (begins id epoch) c = (begin id epoch c).0
step (notes i n) c = on_record i c (λ r. (note_media i r n c).0)
step (completes i) c = on_record i c (λ r. (complete i r c).0)
step (fences i outcome code) c = on_record i c (λ r. (fence i r outcome code c).0)
step (starts id generation n) c = (playback_started id generation n c).0
step (ends id generation outcome samples last) c =
    (playback_ended id generation outcome samples last c).0

unfoldable pub run : List Call → Coordinator → Coordinator
run [] c = c
run (x ∷ xs) c = run xs (step x c)

on_record-Phase :
    (i : ℕ) (c : Coordinator) (act : ResponseRecord → Coordinator)
    → Phase c
    → ((r : ResponseRecord) → get i c.objects ≡ some r → Phase (act r))
    → Phase (on_record i c act)
on_record-Phase i c act v h = elim (Option-cases (get i c.objects)) [
  | inl e ↦ rw (e, on_record) v
  | inr (r, e) ↦ rw (e, on_record) (h r e)
]

step-Phase : (x : Call) (c : Coordinator) → c.session.closed ≡ false → Phase c → Phase (step x c)
unfolding step
step-Phase (begins id epoch) c live v = begin-Phase c live id epoch v
step-Phase (notes i n) c live v = on_record-Phase i c _ v λ r g. note_media-Phase c live i r n g v
step-Phase (completes i) c live v = on_record-Phase i c _ v λ r g. complete-Phase c live i r g v
step-Phase (fences i outcome code) c live v =
    on_record-Phase i c _ v λ r g. fence-Phase c live i r outcome code g v
step-Phase (starts id generation n) c live v = playback_started-Phase c live id generation n v
step-Phase (ends id generation outcome samples last) c live v =
    playback_ended-Phase c live id generation outcome samples last v

-- What a call does to the session.
pub data SessionStep (s s' : Session) : Type 0 where
  untouched : s' ≡ s → SessionStep s s'
  began : s' ≡ (begin_playback s).0 → SessionStep s s'
  cancels : (p : PlaybackRef) → s' ≡ (cancel_playback p s).0 → SessionStep s s'
  finishes : (p : PlaybackRef) → s' ≡ (finish_playback p s).0 → SessionStep s s'

begin-SessionStep :
    (id : Text) (epoch : ℕ) (c : Coordinator) → SessionStep c.session (begin id epoch c).0.session
unfolding begin
begin-SessionStep id epoch c = elim (Option-cases c.active) [
  | inr (i, e) ↦ untouched (ground (arith, e))
  | inl e ↦ elim (Bool-cases (is_some c.playback)) [
    | inl f ↦ untouched (ground (arith, e, f))
    | inr f ↦ began (ground (arith, e, f))
  ]
]

note_media-session :
    (i : ℕ) (r : ResponseRecord) (n : ℕ) (c : Coordinator)
    → (note_media i r n c).0.session ≡ c.session
unfolding note_media write
note_media-session i r n c = ground arith

complete-session :
    (i : ℕ) (r : ResponseRecord) (c : Coordinator) → (complete i r c).0.session ≡ c.session
complete-session i r c = elim (complete_cases i r c) [
  | inl (x, e) ↦ rw e
  | inr e ↦ rw e (unfold write in (remember_terminal-SameCore _ (completed_state i r c)).session)
]

fence-SessionStep :
    (i : ℕ) (r : ResponseRecord) (outcome : ResponseOutcome) (code : Option Text) (c : Coordinator)
    → SessionStep c.session (fence i r outcome code c).0.session
fence-SessionStep i r outcome code c = elim (fence_cases i r outcome code c) [
  | inl (x, e) ↦ untouched (rw e)
  | inr (_, e) ↦
      cancels r.target
        (rw e (remember_terminal-SameCore _ (fenced_state i r outcome code c)).session)
]

playback_started-session :
    (id : Text) (generation n : ℕ) (c : Coordinator)
    → (playback_started id generation n c).0.session ≡ c.session
unfolding playback_started start_record write
playback_started-session id generation n c = ground arith

settle_end-SessionStep :
    (i : ℕ) (r : ResponseRecord) (c : Coordinator)
    → SessionStep c.session (settle_end i r c).0.session
unfolding settle_end write
settle_end-SessionStep i r c = elim (Bool-cases (needs_finish r)) [
  | inl e ↦ finishes r.target (ground (arith, e))
  | inr e ↦ untouched (ground (arith, e))
]

pub playback_ended-SessionStep :
    (id : Text) (generation : ℕ) (outcome : PlaybackOutcome) (samples : ℕ) (last : Option ℕ)
    (c : Coordinator)
    → SessionStep c.session (playback_ended id generation outcome samples last c).0.session
unfolding playback_ended
playback_ended-SessionStep id generation outcome samples last c =
    elim (find_record_cases id generation c) [
      | inl e ↦ untouched (ground (arith, e))
      | inr (i, r, e, g) ↦ elim (end_record_cases i r outcome samples last c) [
        | inl (x, f) ↦ untouched (rw (e, playback_ended, f))
        | inr (_, _, f) ↦ rw (e, playback_ended, f) (settle_end-SessionStep i r c)
      ]
    ]

on_record-SessionStep :
    (i : ℕ) (c : Coordinator) (act : ResponseRecord → Coordinator)
    → ((r : ResponseRecord) → SessionStep c.session (act r).session)
    → SessionStep c.session (on_record i c act).session
on_record-SessionStep i c act h = elim (Option-cases (get i c.objects)) [
  | inl e ↦ rw (e, on_record) (untouched refl)
  | inr (r, e) ↦ rw (e, on_record) (h r)
]

step-SessionStep : (x : Call) (c : Coordinator) → SessionStep c.session (step x c).session
unfolding step
step-SessionStep (begins id epoch) c = begin-SessionStep id epoch c
step-SessionStep (notes i n) c =
    on_record-SessionStep i c _ λ r. untouched (note_media-session i r n c)
step-SessionStep (completes i) c =
    on_record-SessionStep i c _ λ r. untouched (complete-session i r c)
step-SessionStep (fences i outcome code) c =
    on_record-SessionStep i c _ λ r. fence-SessionStep i r outcome code c
step-SessionStep (starts id generation n) c = untouched (playback_started-session id generation n c)
step-SessionStep (ends id generation outcome samples last) c =
    playback_ended-SessionStep id generation outcome samples last c

pub SessionStep-closed : {s s' : Session} → SessionStep s s' → s'.closed ≡ s.closed
SessionStep-closed (untouched e) = ground arith
SessionStep-closed (began e) = unfold begin_playback in ground arith
SessionStep-closed (cancels p e) = unfold cancel_playback in ground arith
SessionStep-closed (finishes p e) = unfold finish_playback in ground arith

SessionStep-IsPast :
    {s s' : Session} (p : PlaybackRef) → SessionStep s s' → IsPast p s → IsPast p s'
SessionStep-IsPast p (untouched e) v = rw e v
SessionStep-IsPast p (began e) v = rw e (unfold Fence.step in Fence.step-IsPast p Fence.begins _ v)
SessionStep-IsPast p (cancels q e) v =
    rw e (unfold Fence.step in Fence.step-IsPast p (Fence.cancels q) _ v)
SessionStep-IsPast p (finishes q e) v =
    rw e (unfold Fence.step in Fence.step-IsPast p (Fence.finishes q) _ v)

-- A coordinator in a phase, with its session open, is in a phase after any calls, the session still
-- open: at every moment it is idle, streams one response, plays one out, or awaits the end of a stopped one.
pub run-Phase :
    (xs : List Call) (c : Coordinator)
    → c.session.closed ≡ false
    → Phase c
    → ((run xs c).session.closed ≡ false) × Phase (run xs c)
unfolding run
run-Phase [] c live v = (live, v)
run-Phase (x ∷ xs) c live v =
    run-Phase xs (step x c) (SessionStep-closed (step-SessionStep x c) ∙ live)
      (step-Phase x c live v)

pub run-IsPast :
    (p : PlaybackRef) (xs : List Call) (c : Coordinator)
    → IsPast p c.session
    → IsPast p (run xs c).session
unfolding run
run-IsPast p [] c v = v
run-IsPast p (x ∷ xs) c v =
    run-IsPast p xs (step x c) (SessionStep-IsPast p (step-SessionStep x c) v)
