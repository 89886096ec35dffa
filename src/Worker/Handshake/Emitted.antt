-- ===== src/Worker/Handshake/Emitted.antt =====
-- The events that the calls of a binding return.
use realtime_voice_agent.Common.{
  ℕ, ◌≤◌, ◌≡◌, Bool, true, false, some, List, [], ◌∷◌, nat_key, Text, ok,
}
use realtime_voice_agent.Common.Dict.{get}
use realtime_voice_agent.Common.Json.{Json, Fields, in_class}
use realtime_voice_agent.Worker.Protocol
use realtime_voice_agent.Worker.Response.{ResponseRecord}
use realtime_voice_agent.Worker.Binding.{Binding}
use realtime_voice_agent.Worker.Binding.Transcripts.{transcript}
use realtime_voice_agent.Worker.Binding.Responses.{
  StopCause, response_text, response_end, session_error, cancel_events, announce,
}
use realtime_voice_agent.Worker.Handshake.Readable.{IsSendable}

module _ (encoded_bytes : Json → ℕ) (b : Binding) where
  -- A message that a call on the binding returns. Texts are without a NUL, and a record is of a response that
  -- can be told of.
  pub data Emits : Fields → Type 0 where
    transcribes :
        {m : Fields} (final : Bool) (utterance_id : Text) (sequence : ℕ) (text : Text)
        → in_class text 0 ≡ false
        → (transcript encoded_bytes final utterance_id sequence text b).1 ≡ ok m
        → Emits m
    begins :
        {m : Fields} (i : ℕ) (r : ResponseRecord)
        → get i b.responses.objects ≡ some r
        → IsSendable r
        → (announce encoded_bytes i true b).1 ≡ ok (i, some m)
        → Emits m
    speaks :
        {m : Fields} (i : ℕ) (r : ResponseRecord) (sequence : ℕ) (text : Text)
        → IsSendable r
        → in_class text 0 ≡ false
        → (response_text encoded_bytes i r sequence text b).1 ≡ ok m
        → Emits m
    completes :
        {m : Fields} (i : ℕ) (r : ResponseRecord) (last : ℕ)
        → IsSendable r
        → r.last_media_sequence ≡ some last
        → last ≤ 0xFFFFFFFF
        → (response_end encoded_bytes i r b).1 ≡ ok m
        → Emits m
    stops :
        {m : Fields} {rest : List Fields} (r : ResponseRecord) (fence_generation : ℕ)
        (cause : StopCause)
        → IsSendable r
        → 1 ≤ fence_generation
        → fence_generation ≤ 0xFFFFFFFF
        → cancel_events encoded_bytes r fence_generation cause b ≡ ok (m ∷ rest)
        → Emits m
    cuts :
        {stop m : Fields} (r : ResponseRecord) (fence_generation : ℕ) (cause : StopCause)
        → IsSendable r
        → cancel_events encoded_bytes r fence_generation cause b ≡ ok (stop ∷ m ∷ [])
        → Emits m
    complains :
        {m : Fields} (error_code : Text) (retryable : Bool) (message : Text)
        → in_class message 0 ≡ false
        → session_error encoded_bytes error_code retryable message b ≡ ok m
        → Emits m
