-- ===== src/Worker/Binding/Tests.antt =====
-- A session at the Worker in which a response is cancelled, with messages that always fit.
use realtime_voice_agent.Common.{ℕ, ◌≡◌, refl, none, some, List, [], ◌∷◌, codes, text_eq, ok}
use realtime_voice_agent.Common.Dict.{get, put, remove}
use realtime_voice_agent.Common.Json.{
  Json, nat, str, arr, obj, item, nil, Fields, field, end, at, has, has_all, within, is_text,
  is_identifier, is_audio_profile, audio_profile, equals_number,
}
use realtime_voice_agent.Worker.Protocol
use realtime_voice_agent.Worker.Protocol.{
  Frame, value, decode_control, loaded_object, parse_session_open_object, require_exact_fields,
  parse_profiles, read_profiles, parse_preferred, validate_capabilities, encode_control,
}
use realtime_voice_agent.Worker.VoiceSession
use realtime_voice_agent.Worker.Response
use realtime_voice_agent.Worker.Binding.{
  Identity, init, open_session, open_parsed, accept_profile, opened_message, select_profile,
  grant_field, to_hex, hex_digit, ensure_open, event, event_fields,
}
use realtime_voice_agent.Worker.Binding.Responses.{
  response_begin, announce, cancel_active_response, cancel_record, cancel_events, no_effect,
  ControlEffect,
}
use realtime_voice_agent.Worker.Binding.Control.{
  receive_control, receive_message, cancel, cancel_parsed, parse_cancel, parse_target, plays,
  require_context, remember_cancel_request, trim_requests,
}
use realtime_voice_agent.Worker.Binding.Cancels.Calls.{
  Call, controls, begins, step, run, repeated_cancel_is_silent,
}

abbrev no_size : Json → ℕ
no_size _ = 0

abbrev identity : Identity
identity = record {
  expected_device_id = codes "desk-1";
  session_id = codes "sess_1";
  session_epoch = codes "epoch_1";
  media_id = 1 ∷ 2 ∷ 3 ∷ 4 ∷ 5 ∷ 6 ∷ 7 ∷ 8 ∷ [];
  media_epoch = 9;
  allowed_profiles = codes "wss-opus/1" ∷ [];
  udp_grant = none;
}

abbrev opening_message : Fields
opening_message = field (codes "type") (str (codes "session.open")) (
    field (codes "protocol_version") (nat 1) (
      field (codes "request_id") (str (codes "req-1")) (
        field (codes "device_id") (str (codes "desk-1")) (
          field (codes "supported_media_profiles") (arr (item (str (codes "wss-opus/1")) nil)) (
            field (codes "preferred_media_profile") (str (codes "wss-opus/1")) (
              field (codes "audio") audio_profile (field (codes "capabilities") (obj end) end)))))))

abbrev calls : List Call
calls =
    controls (record { bytes = 400; loaded = value (obj opening_message) })
    ∷ begins (codes "resp-1") 1
    ∷ []

abbrev target : Fields
target = field (codes "response_id") (str (codes "resp-1")) (field (codes "generation") (nat 1) end)

abbrev request : Fields
request = field (codes "type") (str (codes "response.cancel.request")) (
    field (codes "session_id") (str (codes "sess_1")) (
      field (codes "session_epoch") (str (codes "epoch_1")) (
        field (codes "request_id") (str (codes "cancel-1")) (
          field (codes "target")
            (obj (
              field (codes "response_id") (str (codes "resp-1"))
                (field (codes "generation") (nat 1) end)))
            (field (codes "cause") (str (codes "user_request")) end)))))

-- The first request stops the response and ends it.
abbrev stopped_response : ControlEffect
stopped_response = record no_effect {
  outbound =
      event_fields (codes "playback.stop")
        (field (codes "target") (obj target) (
          field (codes "fence_generation") (nat 2)
            (field (codes "cause") (str (codes "explicit_user_request")) end)))
        (init identity)
      ∷ event_fields (codes "response.end")
          (field (codes "response_id") (str (codes "resp-1")) (
            field (codes "generation") (nat 1)
              (field (codes "outcome") (str (codes "cancelled")) end)))
          (init identity)
      ∷ [];
  interrupt = some 0;
}

binding_code : Unit {0}
unfolding is_identifier init VoiceSession.init audio_profile open_session open_parsed accept_profile
    opened_message select_profile grant_field to_hex hex_digit encode_control
    parse_session_open_object require_exact_fields Protocol.require_identifier parse_profiles
    read_profiles parse_preferred validate_capabilities has_all has within at is_text
    is_audio_profile equals_number text_eq ensure_open event event_fields Protocol.require_uint32
    Protocol.require_bounded decode_control loaded_object receive_control receive_message cancel
    cancel_parsed parse_cancel parse_target plays require_context remember_cancel_request
    trim_requests response_begin announce cancel_active_response cancel_record cancel_events step
    run get put remove Response.begin Response.begin_new Response.new_record Response.write
    Response.accepts Response.fence Response.fenced_record Response.remember_terminal
    Response.trim_terminal Response.forget VoiceSession.begin_playback VoiceSession.cancel_playback
    VoiceSession.accepts_callback
binding_code = tt

repeated_cancel_is_silent_example :
    let b = (cancel no_size request (run no_size calls (init identity))).0 in
    cancel no_size request b ≡ (b, ok no_effect)
repeated_cancel_is_silent_example =
    repeated_cancel_is_silent no_size identity calls request stopped_response
      (unfold binding_code in refl)
