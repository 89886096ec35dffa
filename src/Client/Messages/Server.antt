-- ===== src/Client/Messages/Server.antt =====
-- `validate_server_message` and `parse_session_opened` of protocol/control.py.
use realtime_voice_agent.Common.{
  ℕ, Bool, true, false, not, ◌&&◌, Option, none, some, List, [], ◌∷◌, if◌then◌else◌, Text, codes,
  text_key, ◌==◌, Result, ok, err, ◌>>=◌, ◌>>◌,
}
use realtime_voice_agent.Common.Json.{
  Json, Fields, at, has, as_text, is_bool, is_text, is_among, is_hashable, equals_number,
  is_audio_profile,
}
use realtime_voice_agent.Client.Messages.{
  MessageError, unhashable, refuse, expect, require_identifier, uint32, exact, check_error_code,
  check_text, check_target,
}

-- `value not in {...}`, refused with a code.
unfoldable pub expect_among : List Text → Json → Text → Result MessageError (Unit {0})
expect_among texts value c =
    if not (is_hashable value) then err unhashable else expect (is_among texts value) c

-- The kinds of server messages.
pub data Kind : Type 0 where
  session_opened transcript_delta transcript_final response_begin response_text : Kind
  response_end playback_stop session_error session_close : Kind

unfoldable pub kind_of : Text → Option Kind
kind_of t =
    if t == codes "session.opened"
    then some session_opened
    else if t == codes "transcript.delta"
    then some transcript_delta
    else if t == codes "transcript.final"
    then some transcript_final
    else if t == codes "response.begin"
    then some response_begin
    else if t == codes "response.text"
    then some response_text
    else if t == codes "response.end"
    then some response_end
    else if t == codes "playback.stop"
    then some playback_stop
    else if t == codes "session.error"
    then some session_error
    else if t == codes "session.close"
    then some session_close
    else none

unfoldable pub message_kind : Json → Result MessageError Kind
message_kind v = if not (is_hashable v) then err unhashable else elim (as_text v) [
  | none ↦ refuse (codes "unknown_server_message")
  | some t ↦ elim (kind_of t) [ none ↦ refuse (codes "unknown_server_message") | some k ↦ ok k ]
]

abbrev pub opened_fields : Json → List Text
opened_fields selected =
    codes "type"
    ∷ codes "request_id"
    ∷ codes "session_id"
    ∷ codes "session_epoch"
    ∷ codes "media_id"
    ∷ codes "media_epoch"
    ∷ codes "selected_media_profile"
    ∷ codes "audio"
    ∷ codes "heartbeat_interval_ms"
    ∷ codes "idle_timeout_ms"
    ∷ codes "max_control_message_bytes"
    ∷ (if is_text (codes "udp-opus-gcm/1") selected then codes "udp_grant" ∷ [] else [])

unfoldable pub validate_opened : Fields → Result MessageError (Unit {0})
validate_opened m =
    exact (opened_fields (at (codes "selected_media_profile") m)) [] m
    >> expect
        (is_audio_profile (at (codes "audio") m)
          && equals_number 32768 (at (codes "max_control_message_bytes") m))
        (codes "unsupported_session_parameters")
    >> (require_identifier (at (codes "request_id") m) (codes "request_id") >>= λ _. ok tt)

-- The names beside `type`, `session_id` and `session_epoch`.
abbrev pub kind_fields : Kind → Fields → List Text
kind_fields transcript_delta m = codes "utterance_id" ∷ codes "sequence" ∷ codes "text" ∷ []
kind_fields transcript_final m = codes "utterance_id" ∷ codes "sequence" ∷ codes "text" ∷ []
kind_fields response_begin m = codes "response_id" ∷ codes "generation" ∷ []
kind_fields response_text m =
    codes "response_id" ∷ codes "generation" ∷ codes "sequence" ∷ codes "text" ∷ []
kind_fields response_end m =
    codes "response_id"
    ∷ codes "generation"
    ∷ codes "outcome"
    ∷ (if is_text (codes "completed") (at (codes "outcome") m)
        then codes "final_media_sequence" ∷ []
        else if is_text (codes "failed") (at (codes "outcome") m)
        then codes "error_code" ∷ []
        else [])
kind_fields playback_stop m = codes "target" ∷ codes "fence_generation" ∷ codes "cause" ∷ []
kind_fields session_error m = codes "code" ∷ codes "retryable" ∷ codes "message" ∷ []
kind_fields session_close m = codes "reason" ∷ codes "initiated_by" ∷ []
kind_fields session_opened m = []

abbrev pub optional_fields : Kind → List Text
optional_fields session_close = codes "detail" ∷ []
optional_fields _ = []

unfoldable pub check_response : Fields → Result MessageError (Unit {0})
check_response m = require_identifier (at (codes "response_id") m) (codes "response_id") >>= λ _.
    uint32 (at (codes "generation") m) (codes "generation") 1 >>= λ _. ok tt

unfoldable pub check_transcript : Fields → ℕ → Bool → Result MessageError (Unit {0})
check_transcript m maximum_bytes allow_empty =
    require_identifier (at (codes "utterance_id") m) (codes "utterance_id") >>= λ _.
    uint32 (at (codes "sequence") m) (codes "sequence") 0 >>= λ _.
    check_text (at (codes "text") m) maximum_bytes allow_empty

-- A test of a field that is only made if the message has the field.
abbrev pub if_present :
    Text → Fields → Result MessageError (Unit {0}) → Result MessageError (Unit {0})
if_present name m test = if has name m then test else ok tt

abbrev pub stop_causes : List Text
stop_causes =
    codes "explicit_user_request"
    ∷ codes "recognized_interrupt"
    ∷ codes "session_close"
    ∷ codes "response_failed"
    ∷ []

abbrev pub close_reasons : List Text
close_reasons =
    codes "normal"
    ∷ codes "idle_timeout"
    ∷ codes "network_change"
    ∷ codes "protocol_error"
    ∷ codes "server_shutdown"
    ∷ []

-- The values of the fields of each kind.
unfoldable pub check_body : Kind → Fields → Result MessageError (Unit {0})
check_body transcript_delta m = check_transcript m 4096 false
check_body transcript_final m = check_transcript m 16384 true
check_body response_begin m = check_response m
check_body response_text m =
    check_response m
    >> (uint32 (at (codes "sequence") m) (codes "sequence") 0 >>= λ _.
        check_text (at (codes "text") m) 4096 false)
check_body response_end m =
    check_response m
    >> expect_among (codes "completed" ∷ codes "cancelled" ∷ codes "failed" ∷ [])
        (at (codes "outcome") m) (codes "invalid_response_outcome")
    >> if_present (codes "final_media_sequence") m (
        uint32 (at (codes "final_media_sequence") m) (codes "final_media_sequence") 0 >>= λ _.
        ok tt)
    >> if_present (codes "error_code") m (check_error_code (at (codes "error_code") m))
check_body playback_stop m =
    check_target (at (codes "target") m)
    >> (uint32 (at (codes "fence_generation") m) (codes "fence_generation") 1 >>= λ _.
        expect_among stop_causes (at (codes "cause") m) (codes "invalid_stop_cause"))
check_body session_error m =
    check_error_code (at (codes "code") m)
    >> expect (is_bool (at (codes "retryable") m)) (codes "invalid_retryable")
    >> check_text (at (codes "message") m) 512 true
check_body session_close m =
    expect_among close_reasons (at (codes "reason") m) (codes "invalid_close_reason")
    >> expect_among (codes "server" ∷ codes "device" ∷ []) (at (codes "initiated_by") m)
        (codes "invalid_close_initiator")
    >> if_present (codes "detail") m (check_text (at (codes "detail") m) 256 true)
check_body session_opened m = ok tt

unfoldable pub validate_event : Kind → Fields → Result MessageError (Unit {0})
validate_event k m = require_identifier (at (codes "session_id") m) (codes "session_id") >>= λ _.
    require_identifier (at (codes "session_epoch") m) (codes "session_epoch") >>= λ _.
    exact (codes "type" ∷ codes "session_id" ∷ codes "session_epoch" ∷ kind_fields k m)
      (optional_fields k) m
    >> check_body k m

unfoldable pub validate_kind : Kind → Fields → Result MessageError (Unit {0})
validate_kind session_opened m = validate_opened m
validate_kind k m = validate_event k m

unfoldable pub validate_server_message : Fields → Result MessageError (Unit {0})
validate_server_message m = message_kind (at (codes "type") m) >>= λ k. validate_kind k m
