-- ===== src/Worker/Binding.antt =====
-- bindings/rva/binding.py, `RvaWssBinding`: one rva/1 session at the Worker, from its opening message to
-- its close. A control message stands for the JSON object that it says.
pub mod Media
pub mod Transcripts
pub mod Responses
pub mod Control
pub mod Orders
pub mod Cancels
mod Tests
use realtime_voice_agent.Common.{
  ℕ, ◌+◌, Bool, true, false, not, ◌&&◌, ◌||◌, Option, none, some, List, [], ◌∷◌, ◌++◌, length,
  filter, if◌then◌else◌, ltb, leb, nat_eq, Text, codes, text_key, nat_key, ◌==◌, contains, Result,
  ok, err, is_some, ◌/◌, ◌%◌,
}
use realtime_voice_agent.Common.Dict.{Dict}
use realtime_voice_agent.Common.Json.{
  Json, nat, str, obj, Fields, end, field, audio_profile, is_identifier,
}
use realtime_voice_agent.Worker.Protocol.{
  BindingError, code, fail, require, SessionOpen, encode_control, parse_session_open_object,
  wss_profile, udp_profile, control_max_bytes,
}
use realtime_voice_agent.Worker.VoiceSession
use realtime_voice_agent.Worker.Response.{Coordinator}

pub record Binding : Type 0 where
  pub expected_device_id : Text
  pub session_id : Text
  pub session_epoch : Text
  pub media_id : Text
  pub media_epoch : ℕ
  pub allowed_profiles : List Text
  pub udp_grant : Option Fields
  pub responses : Coordinator
  pub opened : Bool
  pub selected_media_profile : Option Text
  pub next_uplink_sequence : ℕ
  pub next_downlink_sequence : ℕ
  pub next_response_text_sequence : ℕ
  pub active_utterance_id : Option Text
  pub next_transcript_sequence : ℕ
  pub last_finalized_utterance : Option Text
  pub cancel_requests : Dict Text (Text × ℕ)
  pub cancel_request_order : List Text

-- The arguments of the constructor.
pub record Identity : Type 0 where
  pub expected_device_id : Text
  pub session_id : Text
  pub session_epoch : Text
  pub media_id : Text
  pub media_epoch : ℕ
  pub allowed_profiles : List Text
  pub udp_grant : Option Fields

-- What the constructor tests.
unfoldable pub is_valid_identity : Identity → Bool
is_valid_identity i =
    is_identifier i.expected_device_id
    && is_identifier i.session_id
    && is_identifier i.session_epoch
    && nat_eq (length i.media_id) 8
    && leb 1 i.media_epoch
    && leb i.media_epoch 0xFFFFFFFF

unfoldable pub init : Identity → Binding
unfolding VoiceSession.init
init i = record {
  expected_device_id = i.expected_device_id;
  session_id = i.session_id;
  session_epoch = i.session_epoch;
  media_id = i.media_id;
  media_epoch = i.media_epoch;
  allowed_profiles = i.allowed_profiles;
  udp_grant = i.udp_grant;
  responses = record {
    session = VoiceSession.init i.session_epoch [];
    objects = [];
    next_object = 0;
    active = none;
    playback = none;
    records = [];
    terminal_order = [];
  };
  opened = false;
  selected_media_profile = none;
  next_uplink_sequence = 0;
  next_downlink_sequence = 0;
  next_response_text_sequence = 0;
  active_utterance_id = none;
  next_transcript_sequence = 0;
  last_finalized_utterance = none;
  cancel_requests = [];
  cancel_request_order = [];
}

abbrev pub closed : Binding → Bool
closed b = b.responses.session.closed

-- `_ensure_open`, `none` if it passes.
unfoldable pub ensure_open : Binding → Option BindingError
ensure_open b =
    if closed b
    then some (code (codes "session_closed"))
    else if not b.opened
    then some (code (codes "session_not_open"))
    else none

-- The common fields of an event, before its own.
unfoldable pub event_fields : Text → Fields → Binding → Fields
event_fields event_type fields b = field (codes "type") (str event_type) (
    field (codes "session_id") (str b.session_id)
      (field (codes "session_epoch") (str b.session_epoch) fields))

-- The profile that the Worker takes of those offered: the preferred one, the WSS profile, or the first.
unfoldable pub select_profile : Text → List Text → Option Text
select_profile preferred [] = none
select_profile preferred (p ∷ ps) =
    if contains (p ∷ ps) preferred
    then some preferred
    else if contains (p ∷ ps) wss_profile
    then some wss_profile
    else some p

-- `bytes.hex()`
unfoldable pub hex_digit : ℕ → ℕ
hex_digit d = if ltb d 10 then b'0' + d else 87 + d

unfoldable pub to_hex : Text → Text
to_hex [] = []
to_hex (b ∷ t) = hex_digit (b / 16) ∷ hex_digit (b % 16) ∷ to_hex t

-- The last field of the answer.
abbrev pub grant_value : Option Fields → Fields
grant_value none = end
grant_value (some g) = field (codes "udp_grant") (obj g) end

unfoldable pub grant_field : Text → Option Fields → Fields
grant_field selected grant = if selected == udp_profile then grant_value grant else end

unfoldable pub opened_message : Text → Text → Binding → Fields
opened_message request_id selected b = field (codes "type") (str (codes "session.opened")) (
    field (codes "request_id") (str request_id) (
      field (codes "session_id") (str b.session_id) (
        field (codes "session_epoch") (str b.session_epoch) (
          field (codes "media_id") (str (to_hex b.media_id)) (
            field (codes "media_epoch") (nat b.media_epoch) (
              field (codes "selected_media_profile") (str selected) (
                field (codes "audio") audio_profile (
                  field (codes "heartbeat_interval_ms") (nat 15000) (
                    field (codes "idle_timeout_ms") (nat 45000) (
                      field (codes "max_control_message_bytes") (nat control_max_bytes)
                        (grant_field selected b.udp_grant)))))))))))

module _ (encoded_bytes : Json → ℕ) where
  -- `_event`
  unfoldable pub event : Text → Fields → Binding → Result BindingError Fields
  event event_type fields b = encode_control encoded_bytes (event_fields event_type fields b)

  unfoldable pub accept_profile : Text → Text → Binding → Binding × Result BindingError Fields
  accept_profile request_id selected b =
      if (selected == udp_profile) && not (is_some b.udp_grant)
      then (b, fail (codes "udp_unavailable"))
      else (
        record b { opened = true; selected_media_profile = some selected },
        encode_control encoded_bytes (opened_message request_id selected b),
      )

  unfoldable pub open_parsed : SessionOpen → Binding → Binding × Result BindingError Fields
  open_parsed o b =
      if not (o.device_id == b.expected_device_id)
      then (b, fail (codes "device_id_mismatch"))
      else elim (select_profile o.preferred_media_profile
          (filter (contains b.allowed_profiles) o.supported_media_profiles)) [
            | none ↦ (b, fail (codes "unsupported_media_profile"))
            | some selected ↦ accept_profile o.request_id selected b
          ]

  -- `_open`
  unfoldable pub open_session : Fields → Binding → Binding × Result BindingError Fields
  open_session message b =
      if b.opened
      then (b, fail (codes "duplicate_session_open"))
      else if closed b
      then (b, fail (codes "session_closed"))
      else elim (parse_session_open_object message) [ err e ↦ (b, err e) | ok o ↦ open_parsed o b ]
