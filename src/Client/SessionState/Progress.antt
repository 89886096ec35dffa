-- ===== src/Client/SessionState/Progress.antt =====
-- What only grows while a session runs: the fence, the downlink sequence, the generation, and that it
-- is closed.
use realtime_voice_agent.Common.{
  ℕ, ◌≡◌, ◌≤◌, refl, Bool, true, false, ◌||◌, inl, inr, Option, List, [], ◌∷◌, arith, Text,
  text_key, nat_key, Result, ok, err, Option-cases, Bool-cases, ◌⊎◌, leb,
}
use realtime_voice_agent.Common.Dict.{get}
use realtime_voice_agent.Client.SessionState.{
  PlaybackTarget, Playback, State, ResponseOutcome, ClientError, session_closed,
  duplicate_session_opened, stale_session, require_known, write_playback, remember_final_transcript,
}
use realtime_voice_agent.Client.SessionState.Control.{
  Message, Body, accept_control, accept_body, accept_transcript, accept_begin, accept_text,
  accept_end, accept_stop, apply_stop, is_opened, same_session, session_opened, session_error,
  session_close, transcript_delta, transcript_final, response_begin, response_text, response_end,
  playback_stop,
}
use realtime_voice_agent.Client.SessionState.MediaGate.{accept_media, out_of_sequence, record_frame}
use realtime_voice_agent.Client.SessionState.Playout.{
  PlaybackOutcome, playback_started, playback_ended, retire, close_message, check_started,
}
use realtime_voice_agent.Media.Frame.{Header}

pub data Call : Type 0 where
  controls : Message → Call
  receives : Header → Call
  starts : PlaybackTarget → ℕ → Call
  ends : PlaybackTarget → PlaybackOutcome → ℕ → Option ℕ → Call
  closes : Bool → Call

unfoldable pub step : Call → State → State
step (controls m) s = (accept_control m s).0
step (receives frame) s = (accept_media frame s).0
step (starts target n) s = (playback_started target n s).0
step (ends target outcome samples last) s = (playback_ended target outcome samples last s).0
step (closes detail_ok) s = (close_message detail_ok s).0

unfoldable pub run : List Call → State → State
run [] s = s
run (c ∷ cs) s = run cs (step c s)

pub record Grows (s s' : State) : Type 0 where
  pub fence : s.fence_generation ≤ s'.fence_generation
  pub sequence : s.next_downlink_sequence ≤ s'.next_downlink_sequence
  pub generation : s.highest_generation ≤ s'.highest_generation
  pub closed : s.closed ≡ true → s'.closed ≡ true
  pub opened : s'.opened ≡ s.opened

Grows-refl : (s : State) → Grows s s
Grows-refl s = record {
  fence = omega arith;
  sequence = omega arith;
  generation = omega arith;
  closed = λ h. h;
  opened = refl;
}

Grows-trans : (s t u : State) → Grows s t → Grows t u → Grows s u
Grows-trans s t u a b = record {
  fence = omega (arith, a.fence, b.fence);
  sequence = omega (arith, a.sequence, b.sequence);
  generation = omega (arith, a.generation, b.generation);
  closed = λ h. b.closed (a.closed h);
  opened = ground (arith, a.opened, b.opened);
}

pub known_cases :
    (target : PlaybackTarget) (s : State)
    → ((x : ClientError) × (require_known target s ≡ err x))
      ⊎ ((p : Playback) × (require_known target s ≡ ok p))
known_cases target s = split (require_known target s) refl
  where
    split :
        (r : Result ClientError Playback)
        → require_known target s ≡ r
        → ((x : ClientError) × (require_known target s ≡ err x))
          ⊎ ((p : Playback) × (require_known target s ≡ ok p))
    split (err x) e = inl (x, e)
    split (ok p) e = inr (p, e)

-- A message is refused before its kind is looked at, or not.
pub accept_control_cases :
    (m : Message) (s : State)
    → ((x : ClientError) × (accept_control m s ≡ (s, err x)))
      ⊎ (accept_control m s ≡ accept_body m.body s)
unfolding accept_control
accept_control_cases m s = elim (Bool-cases s.closed) [
  | inl a ↦ inl (session_closed, rw (a))
  | inr a ↦ elim (Bool-cases (is_opened m.body)) [
    | inl b ↦ inl (duplicate_session_opened, rw (a, b))
    | inr b ↦ elim (Bool-cases (same_session m s)) [
      | inl c ↦ inr (ground (arith, a, b, c))
      | inr c ↦ inl (stale_session, ground (arith, a, b, c))
    ]
  ]
]

write_playback-Grows : (p : Playback) (s : State) → Grows s (write_playback p s)
unfolding write_playback
write_playback-Grows p s = elim (Option-cases (get p.target.generation s.playbacks)) [
  | inl e ↦
      rw (e, write_playback)
        (record {
          fence = omega arith;
          sequence = omega arith;
          generation = omega arith;
          closed = λ h. h;
          opened = refl;
        })
  | inr (q, e) ↦
      rw (e, write_playback)
        (record {
          fence = omega arith;
          sequence = omega arith;
          generation = omega arith;
          closed = λ h. h;
          opened = refl;
        })
]

remember-Grows : (u : Text) (s : State) → Grows s (remember_final_transcript u s)
unfolding remember_final_transcript
remember-Grows u s = record {
  fence = ground arith;
  sequence = ground arith;
  generation = ground arith;
  closed = λ h. ground arith;
  opened = ground arith;
}

accept_transcript-Grows :
    (u : Text) (n : ℕ) (final : Bool) (s : State) → Grows s (accept_transcript u n final s).0
unfolding accept_transcript
accept_transcript-Grows u n final s =
    let g = remember-Grows u s in
    record {
      fence = ground (arith, g.fence);
      sequence = ground (arith, g.sequence);
      generation = ground (arith, g.generation);
      closed = λ h. ground (arith, g.closed h);
      opened = ground (arith, g.opened);
    }

accept_begin-Grows : (target : PlaybackTarget) (s : State) → Grows s (accept_begin target s).0
unfolding accept_begin
accept_begin-Grows target s = record {
  fence = ground arith;
  sequence = ground arith;
  generation = ground arith;
  closed = λ h. ground arith;
  opened = ground arith;
}

accept_text-Grows :
    (target : PlaybackTarget) (n : ℕ) (s : State) → Grows s (accept_text target n s).0
unfolding accept_text
accept_text-Grows target n s = record {
  fence = ground arith;
  sequence = ground arith;
  generation = ground arith;
  closed = λ h. ground arith;
  opened = ground arith;
}

accept_end-Grows :
    (target : PlaybackTarget) (outcome : ResponseOutcome) (final : ℕ) (s : State)
    → Grows s (accept_end target outcome final s).0
unfolding accept_end
accept_end-Grows target outcome final s = elim (known_cases target s) [
  | inl (x, e) ↦ rw (e, accept_end) (Grows-refl s)
  | inr (p, e) ↦ elim (Bool-cases p.response_terminal) [
    | inl f ↦ rw (e, accept_end, f) (Grows-refl s)
    | inr f ↦ rw (e, accept_end, f) (write_playback-Grows _ s)
  ]
]

apply_stop-Grows :
    (p : Playback) (target : PlaybackTarget) (fence : ℕ) (cause : Text) (s : State)
    → Grows s (apply_stop p target fence cause s).0
unfolding apply_stop
apply_stop-Grows p target fence cause s =
    elim (Bool-cases (leb fence target.generation || leb fence s.fence_generation)) [
      | inl f ↦ rw f (Grows-refl s)
      | inr f ↦
          let raised : Grows s (record s { fence_generation = fence }) = record {
            fence = ground (arith, f);
            sequence = omega arith;
            generation = omega arith;
            closed = λ h. h;
            opened = refl;
          } in
          rw f (
            Grows-trans s _ _ raised
              (write_playback-Grows _ (record s { fence_generation = fence })))
    ]

accept_stop-Grows :
    (target : PlaybackTarget) (fence : ℕ) (cause : Text) (s : State)
    → Grows s (accept_stop target fence cause s).0
unfolding accept_stop
accept_stop-Grows target fence cause s = elim (known_cases target s) [
  | inl (x, e) ↦ rw (e, accept_stop) (Grows-refl s)
  | inr (p, e) ↦ elim (Bool-cases p.ended) [
    | inl f ↦ rw (e, accept_stop, f) (Grows-refl s)
    | inr f ↦ elim (Option-cases p.stop_fence) [
      | inl g ↦ rw (e, accept_stop, f, g) (apply_stop-Grows p target fence cause s)
      | inr (n, g) ↦
          let same : (accept_stop target fence cause s).0 ≡ s = ground (arith, e, f, g) in
          rw same (Grows-refl s)
    ]
  ]
]

accept_body-Grows : (b : Body) (s : State) → Grows s (accept_body b s).0
unfolding accept_body
accept_body-Grows session_opened s = Grows-refl s
accept_body-Grows session_error s = Grows-refl s
accept_body-Grows session_close s = record {
  fence = omega arith;
  sequence = omega arith;
  generation = omega arith;
  closed = λ h. refl;
  opened = refl;
}
accept_body-Grows (transcript_delta u n) s = accept_transcript-Grows u n false s
accept_body-Grows (transcript_final u n) s = accept_transcript-Grows u n true s
accept_body-Grows (response_begin target) s = accept_begin-Grows target s
accept_body-Grows (response_text target n) s = accept_text-Grows target n s
accept_body-Grows (response_end target outcome n) s = accept_end-Grows target outcome n s
accept_body-Grows (playback_stop target fence cause) s = accept_stop-Grows target fence cause s

accept_control-Grows : (m : Message) (s : State) → Grows s (accept_control m s).0
accept_control-Grows m s = elim (accept_control_cases m s) [
  | inl (x, e) ↦ rw e (Grows-refl s)
  | inr e ↦ rw e (accept_body-Grows m.body s)
]

record_frame-Grows : (frame : Header) (s : State) → Grows s (record_frame frame s)
unfolding record_frame
record_frame-Grows frame s = elim (Option-cases (get frame.generation s.playbacks)) [
  | inl e ↦ rw (e, record_frame) (Grows-refl s)
  | inr (p, e) ↦
      rw (e, record_frame)
        (record {
          fence = omega arith;
          sequence = omega arith;
          generation = omega arith;
          closed = λ h. h;
          opened = refl;
        })
]

accept_media-Grows : (frame : Header) (s : State) → Grows s (accept_media frame s).0
unfolding accept_media out_of_sequence record_frame
accept_media-Grows frame s = record {
  fence = ground arith;
  sequence = ground arith;
  generation = ground arith;
  closed = λ h. ground arith;
  opened = ground arith;
}

playback_started-Grows :
    (target : PlaybackTarget) (n : ℕ) (s : State) → Grows s (playback_started target n s).0
unfolding playback_started
playback_started-Grows target n s = elim (known_cases target s) [
  | inl (x, e) ↦ rw (e, playback_started) (Grows-refl s)
  | inr (p, e) ↦ elim (Option-cases (check_started p n)) [
    | inl f ↦ rw (e, playback_started, f) (write_playback-Grows _ s)
    | inr (x, f) ↦ rw (e, playback_started, f) (Grows-refl s)
  ]
]

playback_ended-Grows :
    (target : PlaybackTarget) (outcome : PlaybackOutcome) (samples : ℕ) (last : Option ℕ)
    (s : State)
    → Grows s (playback_ended target outcome samples last s).0
unfolding playback_ended retire
playback_ended-Grows target outcome samples last s = record {
  fence = ground arith;
  sequence = ground arith;
  generation = ground arith;
  closed = λ h. ground arith;
  opened = ground arith;
}

step-Grows : (c : Call) (s : State) → Grows s (step c s)
unfolding step
step-Grows (controls m) s = accept_control-Grows m s
step-Grows (receives frame) s = accept_media-Grows frame s
step-Grows (starts target n) s = playback_started-Grows target n s
step-Grows (ends target outcome samples last) s = playback_ended-Grows target outcome samples last s
step-Grows (closes detail_ok) s =
    unfold close_message in
    record {
      fence = ground arith;
      sequence = ground arith;
      generation = ground arith;
      closed = λ h. ground arith;
      opened = ground arith;
    }

pub run-Grows : (cs : List Call) (s : State) → Grows s (run cs s)
unfolding run
run-Grows [] s = Grows-refl s
run-Grows (c ∷ cs) s =
    Grows-trans s (step c s) (run cs (step c s)) (step-Grows c s) (run-Grows cs (step c s))
