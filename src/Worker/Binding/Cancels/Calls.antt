-- ===== src/Worker/Binding/Cancels/Calls.antt =====
-- The calls of a binding, and what they leave of the cancel requests that it remembers.
use realtime_voice_agent.Common.{
  ℕ, ◌≡◌, refl, Bool, List, [], ◌∷◌, arith, Text, codes, Result, ok, err, Bool-cases, Option-cases,
  inl, inr,
}
use realtime_voice_agent.Common.Json.{Json, Fields, at, is_text}
use realtime_voice_agent.Worker.Response.{ResponseRecord}
use realtime_voice_agent.Worker.Protocol.{BindingError, Frame, decode_control}
use realtime_voice_agent.Worker.Binding.{
  Binding, Identity, init, ensure_open, open_session, open_parsed, accept_profile,
}
use realtime_voice_agent.Worker.Binding.Transcripts.{
  transcript, advance_transcript, start_utterance, count_fragment,
}
use realtime_voice_agent.Worker.Binding.Media.{
  receive_media, receive_frame, serialize_audio, reserve_downlink_media, note_downlink_media,
}
use realtime_voice_agent.Worker.Binding.Responses.{
  StopCause, ControlEffect, no_effect, explicit_user_request, session_close, cancel_active_response,
  response_begin, announce, response_text, response_end,
}
use realtime_voice_agent.Worker.Binding.Control.{
  receive_control, receive_message, receive_open, cancel, cancel_parsed, opened_effect,
  playback_started, playback_ended, receive_close,
}
use realtime_voice_agent.Worker.Binding.Cancels.{IsRemembered}
use realtime_voice_agent.Worker.Binding.Cancels.Repeats.{
  cancel_again, Result-cases, CancelOutcome-IsRemembered, cancel_cases,
  cancel_active_response-responses,
}

pub data Call : Type 0 where
  controls : Frame → Call
  cancels : StopCause → Call
  hears : Text → Call
  transcribes : Bool → Text → ℕ → Text → Call
  begins : Text → ℕ → Call
  speaks : ℕ → ResponseRecord → ℕ → Text → Call
  completes : ℕ → ResponseRecord → Call
  plays : Text → ℕ → ℕ → ResponseRecord → Call
  notes : ℕ → ResponseRecord → ℕ → Call

module _ (encoded_bytes : Json → ℕ) where
  unfoldable pub step : Call → Binding → Binding
  step (controls f) b = (receive_control encoded_bytes f b).0
  step (cancels cause) b = (cancel_active_response encoded_bytes cause b).0
  step (hears raw) b = (receive_media raw b).0
  step (transcribes final utterance_id sequence text) b =
      (transcript encoded_bytes final utterance_id sequence text b).0
  step (begins response_id producer_epoch) b =
      (response_begin encoded_bytes response_id producer_epoch b).0
  step (speaks i r sequence text) b = (response_text encoded_bytes i r sequence text b).0
  step (completes i r) b = (response_end encoded_bytes i r b).0
  step (plays payload timestamp i r) b = (serialize_audio payload timestamp i r b).0
  step (notes i r sequence) b = (note_downlink_media i r sequence b).0

  unfoldable pub run : List Call → Binding → Binding
  run [] b = b
  run (c ∷ cs) b = run cs (step c b)

  abbrev Same : Binding → Binding → Type 0
  Same b c =
      (c.cancel_requests ≡ b.cancel_requests) × (c.cancel_request_order ≡ b.cancel_request_order)

  receive_media-Same : (raw : Text) (b : Binding) → Same b (receive_media raw b).0
  unfolding receive_media receive_frame
  receive_media-Same raw b = ground arith

  transcript-Same :
      (final : Bool) (utterance_id : Text) (sequence : ℕ) (text : Text) (b : Binding)
      → Same b (transcript encoded_bytes final utterance_id sequence text b).0
  unfolding transcript advance_transcript start_utterance count_fragment
  transcript-Same final utterance_id sequence text b = ground arith

  response_begin-Same :
      (response_id : Text) (producer_epoch : ℕ) (b : Binding)
      → Same b (response_begin encoded_bytes response_id producer_epoch b).0
  unfolding response_begin announce
  response_begin-Same response_id producer_epoch b = ground arith

  response_text-Same :
      (i : ℕ) (r : ResponseRecord) (sequence : ℕ) (text : Text) (b : Binding)
      → Same b (response_text encoded_bytes i r sequence text b).0
  unfolding response_text
  response_text-Same i r sequence text b = ground arith

  response_end-Same :
      (i : ℕ) (r : ResponseRecord) (b : Binding) → Same b (response_end encoded_bytes i r b).0
  unfolding response_end
  response_end-Same i r b = ground arith

  serialize_audio-Same :
      (payload : Text) (timestamp i : ℕ) (r : ResponseRecord) (b : Binding)
      → Same b (serialize_audio payload timestamp i r b).0
  unfolding serialize_audio reserve_downlink_media
  serialize_audio-Same payload timestamp i r b = ground arith

  note_downlink_media-Same :
      (i : ℕ) (r : ResponseRecord) (sequence : ℕ) (b : Binding)
      → Same b (note_downlink_media i r sequence b).0
  unfolding note_downlink_media
  note_downlink_media-Same i r sequence b = ground arith

  open_session-Same : (m : Fields) (b : Binding) → Same b (open_session encoded_bytes m b).0
  unfolding open_session open_parsed accept_profile
  open_session-Same m b = ground arith

  playback_started-Same : (m : Fields) (b : Binding) → Same b (playback_started encoded_bytes m b).0
  unfolding playback_started
  playback_started-Same m b = ground arith

  playback_ended-Same : (m : Fields) (b : Binding) → Same b (playback_ended encoded_bytes m b).0
  unfolding playback_ended
  playback_ended-Same m b = ground arith

  cancel_active_response-Same :
      (cause : StopCause) (b : Binding) → Same b (cancel_active_response encoded_bytes cause b).0
  cancel_active_response-Same cause b =
      let (c, e) = cancel_active_response-responses encoded_bytes cause b in rw e (refl, refl)

  receive_close-Same : (m : Fields) (b : Binding) → Same b (receive_close encoded_bytes m b).0
  unfolding receive_close
  receive_close-Same m b =
      let (c, e) = cancel_active_response-responses encoded_bytes session_close b in ground arith

  -- A refused request leaves the memory as it was.
  cancel_refused-Same :
      (m : Fields) (b : Binding) (e : BindingError)
      → (cancel encoded_bytes m b).1 ≡ err e
      → Same b (cancel encoded_bytes m b).0
  unfolding cancel cancel_parsed
  cancel_refused-Same m b e h =
      let (c, same) = cancel_active_response-responses encoded_bytes explicit_user_request b in
      ground arith

  Same-IsRemembered : (b c : Binding) → Same b c → IsRemembered b → IsRemembered c
  Same-IsRemembered b c h v = record {
    bounded = rw h.1 v.bounded;
    unique = rw h.1 v.unique;
    known = λ id k. rw h.0 (v.known id (rw⁻¹ h.1 k));
  }

  cancel-IsRemembered :
      (m : Fields) (b : Binding) → IsRemembered b → IsRemembered (cancel encoded_bytes m b).0
  cancel-IsRemembered m b v = elim (Result-cases (cancel encoded_bytes m b).1) [
    | inl (e, h) ↦ Same-IsRemembered b _ (cancel_refused-Same m b e h) v
    | inr (effect, h) ↦
        let (k, target, f, outcome) = cancel_cases encoded_bytes m b effect h in
        CancelOutcome-IsRemembered encoded_bytes k target b _ v outcome
  ]

  opened_effect-0 :
      (r : Binding × Result BindingError Fields) → (opened_effect encoded_bytes r).0 ≡ r.0
  opened_effect-0 (b, ok m) = refl
  opened_effect-0 (b, err e) = refl

  receive_open-IsRemembered :
      (m : Fields) (b : Binding) → IsRemembered b → IsRemembered (receive_open encoded_bytes m b).0
  unfolding receive_open
  receive_open-IsRemembered m b v =
      elim (Bool-cases (is_text (codes "response.cancel.request") (at (codes "type") m))) [
        | inl f ↦ rw f (cancel-IsRemembered m b v)
        | inr f ↦
            Same-IsRemembered b _
              (ground
                (arith, playback_started-Same m b, playback_ended-Same m b, receive_close-Same m b))
              v
      ]

  receive_message-IsRemembered :
      (m : Fields) (b : Binding)
      → IsRemembered b
      → IsRemembered (receive_message encoded_bytes m b).0
  unfolding receive_message
  receive_message-IsRemembered m b v =
      elim (Bool-cases (is_text (codes "session.open") (at (codes "type") m))) [
        | inl f ↦
            rw (f, opened_effect-0 (open_session encoded_bytes m b))
              (Same-IsRemembered b _ (open_session-Same m b) v)
        | inr f ↦ elim (Option-cases (ensure_open b)) [
          | inr (e, g) ↦ rw (f, g, receive_message) v
          | inl g ↦ rw (f, g, receive_message) (receive_open-IsRemembered m b v)
        ]
      ]

  receive_control-IsRemembered :
      (f : Frame) (b : Binding)
      → IsRemembered b
      → IsRemembered (receive_control encoded_bytes f b).0
  unfolding receive_control
  receive_control-IsRemembered f b v = elim (Result-cases (decode_control f)) [
    | inl (e, h) ↦ rw (h, receive_control) v
    | inr (m, h) ↦ rw (h, receive_control) (receive_message-IsRemembered m b v)
  ]

  step-IsRemembered : (c : Call) (b : Binding) → IsRemembered b → IsRemembered (step c b)
  unfolding step
  step-IsRemembered (controls f) b v = receive_control-IsRemembered f b v
  step-IsRemembered (cancels cause) b v =
      Same-IsRemembered b _ (cancel_active_response-Same cause b) v
  step-IsRemembered (hears raw) b v = Same-IsRemembered b _ (receive_media-Same raw b) v
  step-IsRemembered (transcribes final utterance_id sequence text) b v =
      Same-IsRemembered b _ (transcript-Same final utterance_id sequence text b) v
  step-IsRemembered (begins response_id producer_epoch) b v =
      Same-IsRemembered b _ (response_begin-Same response_id producer_epoch b) v
  step-IsRemembered (speaks i r sequence text) b v =
      Same-IsRemembered b _ (response_text-Same i r sequence text b) v
  step-IsRemembered (completes i r) b v = Same-IsRemembered b _ (response_end-Same i r b) v
  step-IsRemembered (plays payload timestamp i r) b v =
      Same-IsRemembered b _ (serialize_audio-Same payload timestamp i r b) v
  step-IsRemembered (notes i r sequence) b v =
      Same-IsRemembered b _ (note_downlink_media-Same i r sequence b) v

  run-IsRemembered : (cs : List Call) (b : Binding) → IsRemembered b → IsRemembered (run cs b)
  unfolding run
  run-IsRemembered [] b v = v
  run-IsRemembered (c ∷ cs) b v = run-IsRemembered cs (step c b) (step-IsRemembered c b v)

  -- Whatever calls a new binding has had, a cancel request that it accepts may come again: the repeated request
  -- is accepted, sends nothing and changes nothing.
  pub repeated_cancel_is_silent :
      (i : Identity) (cs : List Call) (m : Fields) (effect : ControlEffect)
      → (cancel encoded_bytes m (run cs (init i))).1 ≡ ok effect
      → let b = (cancel encoded_bytes m (run cs (init i))).0 in
        cancel encoded_bytes m b ≡ (b, ok no_effect)
  unfolding init
  repeated_cancel_is_silent i cs m effect h =
      cancel_again encoded_bytes m (run cs (init i)) effect
        (run-IsRemembered cs (init i)
          (record { bounded = omega arith; unique = refl; known = λ id k. absurd (ground arith) }))
        h
