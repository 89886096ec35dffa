-- ===== src/Worker/Handshake/Readable.antt =====
-- The Worker's events against the client's validator.
use realtime_voice_agent.Common.{
  ℕ, ◌≤◌, ◌≡◌, refl, Bool, true, false, not, ◌&&◌, length, is_empty, leb, ltb, arith, Text,
  text_key, text_eq, codes, ok,
}
use realtime_voice_agent.Common.Json.{
  Fields, str, at, has, has_all, within, is_text, is_identifier, is_error_code, is_among, in_class,
}
use realtime_voice_agent.Client.Messages
use realtime_voice_agent.Client.Messages.{
  exact, uint32, bounded_int, check_text, check_target, check_error_code,
}
use realtime_voice_agent.Client.Messages.Server.{
  validate_server_message, message_kind, kind_of, validate_kind, validate_event, check_body,
  check_transcript, check_response, expect_among,
}
use realtime_voice_agent.Worker.Response.{ResponseRecord}
use realtime_voice_agent.Worker.Binding.{Binding, event_fields}
use realtime_voice_agent.Worker.Binding.Transcripts.{
  transcript_fields, transcript_type, transcript_bytes,
}
use realtime_voice_agent.Worker.Binding.Responses.{
  StopCause, explicit_user_request, recognized_interrupt, session_close, response_failed,
  begin_fields, text_fields, completed_fields, stop_fields, stopped_fields, error_fields,
}

abbrev pub IsReadable : Fields → Type 0
IsReadable m = validate_server_message m ≡ ok tt

-- The binding's identifiers are well-formed, as its constructor tests.
pub record IsNamed (b : Binding) : Type 0 where
  pub session_id : is_identifier b.session_id ≡ true
  pub session_epoch : is_identifier b.session_epoch ≡ true

-- A response that the client can be told of: its identifier is one, as `response_begin` tests, and its
-- generation is positive and fits 32 bits.
pub record IsSendable (r : ResponseRecord) : Type 0 where
  pub response_id : is_identifier r.response_id ≡ true
  pub generation : (1 ≤ r.target.generation) × (r.target.generation ≤ 0xFFFFFFFF)

-- A text of at most so many bytes, without a NUL, and not empty unless that is allowed.
pub record IsPlain (text : Text) (maximum_bytes : ℕ) (allow_empty : Bool) : Type 0 where
  pub length : length text ≤ maximum_bytes
  pub no_nul : in_class text 0 ≡ false
  pub filled : (not allow_empty && is_empty text) ≡ false

check_text_lem :
    (text : Text) (maximum_bytes : ℕ) (allow_empty : Bool)
    → IsPlain text maximum_bytes allow_empty
    → check_text (str text) maximum_bytes allow_empty ≡ ok tt
unfolding check_text
check_text_lem text maximum_bytes allow_empty v =
    let short : ltb maximum_bytes (length text) ≡ false = ground (arith, v.length) in
    rw (v.filled, v.no_nul, short) refl

in_range : (low n : ℕ) → low ≤ n → n ≤ 0xFFFFFFFF → (leb low n && leb n 0xFFFFFFFF) ≡ true
in_range low n l h = ground arith

module _ (b : Binding) (v : IsNamed b) where
  pub transcript-IsReadable :
      (final : Bool) (utterance_id : Text) (sequence : ℕ) (text : Text)
      → is_identifier utterance_id ≡ true
      → sequence ≤ 0xFFFFFFFF
      → IsPlain text (transcript_bytes final) final
      → IsReadable
          (event_fields (transcript_type final) (transcript_fields utterance_id sequence text) b)
  unfolding validate_server_message message_kind kind_of validate_kind validate_event exact has_all
      has within at is_text text_eq Messages.require_identifier check_body check_transcript uint32
      bounded_int event_fields
  transcript-IsReadable false utterance_id sequence text u n t =
      rw
        (
          v.session_id,
          v.session_epoch,
          u,
          in_range 0 sequence (omega arith) n,
          check_text_lem text 4096 false t,
        )
        refl
  transcript-IsReadable true utterance_id sequence text u n t =
      rw
        (
          v.session_id,
          v.session_epoch,
          u,
          in_range 0 sequence (omega arith) n,
          check_text_lem text 16384 true t,
        )
        refl

  module _ (r : ResponseRecord) (s : IsSendable r) where
    generation_lem : (leb 1 r.target.generation && leb r.target.generation 0xFFFFFFFF) ≡ true
    generation_lem = in_range 1 r.target.generation s.generation.0 s.generation.1

    pub begin-IsReadable : IsReadable (event_fields (codes "response.begin") (begin_fields r) b)
    unfolding validate_server_message message_kind kind_of validate_kind validate_event exact
        has_all has within at is_text text_eq Messages.require_identifier check_body check_response
        uint32 bounded_int event_fields
    begin-IsReadable = rw (v.session_id, v.session_epoch, s.response_id, generation_lem) refl

    pub text-IsReadable :
        (sequence : ℕ) (text : Text)
        → sequence ≤ 0xFFFFFFFF
        → IsPlain text 4096 false
        → IsReadable (event_fields (codes "response.text") (text_fields r sequence text) b)
    unfolding validate_server_message message_kind kind_of validate_kind validate_event exact
        has_all has within at is_text text_eq Messages.require_identifier check_body check_response
        uint32 bounded_int event_fields
    text-IsReadable sequence text n t =
        rw
          (
            v.session_id,
            v.session_epoch,
            s.response_id,
            generation_lem,
            in_range 0 sequence (omega arith) n,
            check_text_lem text 4096 false t,
          )
          refl

    pub completed-IsReadable :
        (last : ℕ)
        → last ≤ 0xFFFFFFFF
        → IsReadable (event_fields (codes "response.end") (completed_fields r last) b)
    unfolding validate_server_message message_kind kind_of validate_kind validate_event exact
        has_all has within at is_text text_eq Messages.require_identifier check_body check_response
        uint32 bounded_int event_fields expect_among is_among
    completed-IsReadable last n =
        rw
          (
            v.session_id,
            v.session_epoch,
            s.response_id,
            generation_lem,
            in_range 0 last (omega arith) n,
          )
          refl

    pub stopped-IsReadable :
        (cause : StopCause)
        → IsReadable (event_fields (codes "response.end") (stopped_fields r cause) b)
    unfolding validate_server_message message_kind kind_of validate_kind validate_event exact
        has_all has within at is_text text_eq Messages.require_identifier check_body check_response
        uint32 bounded_int event_fields expect_among is_among check_error_code is_error_code
    stopped-IsReadable response_failed =
        rw (v.session_id, v.session_epoch, s.response_id, generation_lem) refl
    stopped-IsReadable explicit_user_request =
        rw (v.session_id, v.session_epoch, s.response_id, generation_lem) refl
    stopped-IsReadable recognized_interrupt =
        rw (v.session_id, v.session_epoch, s.response_id, generation_lem) refl
    stopped-IsReadable session_close =
        rw (v.session_id, v.session_epoch, s.response_id, generation_lem) refl

    pub stop-IsReadable :
        (fence_generation : ℕ) (cause : StopCause)
        → 1 ≤ fence_generation
        → fence_generation ≤ 0xFFFFFFFF
        → IsReadable (event_fields (codes "playback.stop") (stop_fields r fence_generation cause) b)
    unfolding validate_server_message message_kind kind_of validate_kind validate_event exact
        has_all has within at is_text text_eq Messages.require_identifier check_body check_target
        uint32 bounded_int event_fields expect_among is_among
    stop-IsReadable fence_generation response_failed l n =
        rw
          (
            v.session_id,
            v.session_epoch,
            s.response_id,
            generation_lem,
            in_range 1 fence_generation l n,
          )
          refl
    stop-IsReadable fence_generation explicit_user_request l n =
        rw
          (
            v.session_id,
            v.session_epoch,
            s.response_id,
            generation_lem,
            in_range 1 fence_generation l n,
          )
          refl
    stop-IsReadable fence_generation recognized_interrupt l n =
        rw
          (
            v.session_id,
            v.session_epoch,
            s.response_id,
            generation_lem,
            in_range 1 fence_generation l n,
          )
          refl
    stop-IsReadable fence_generation session_close l n =
        rw
          (
            v.session_id,
            v.session_epoch,
            s.response_id,
            generation_lem,
            in_range 1 fence_generation l n,
          )
          refl

  pub error-IsReadable :
      (error_code : Text) (retryable : Bool) (message : Text)
      → is_error_code error_code ≡ true
      → IsPlain message 512 true
      → IsReadable
          (event_fields (codes "session.error") (error_fields error_code retryable message) b)
  unfolding validate_server_message message_kind kind_of validate_kind validate_event exact has_all
      has within at is_text text_eq Messages.require_identifier check_body check_error_code
      event_fields
  error-IsReadable error_code retryable message e t =
      rw (v.session_id, v.session_epoch, e, check_text_lem message 512 true t) refl
