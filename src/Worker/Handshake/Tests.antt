-- ===== src/Worker/Handshake/Tests.antt =====
-- A client and a Worker from the opening of their session on, with messages that always fit.
use realtime_voice_agent.Common.{
  ℕ, ◌≡◌, refl, Bool, true, false, none, some, List, [], ◌∷◌, ◌++◌, length, codes, Text, text_key,
  text_eq, ok, replicate,
}
use realtime_voice_agent.Common.Json.{
  Json, Fields, at, has, has_all, within, is_text, is_identifier, is_audio_profile, audio_profile,
  equals_number,
}
use realtime_voice_agent.Client.Messages.{
  ClientConfig, wss_opus_v1, udp_opus_gcm_v1, build_session_open, session_open, is_valid_config,
  is_bootstrap_identifier, as_wire,
}
use realtime_voice_agent.Client.Messages.Opened.{Base64}
use realtime_voice_agent.Media.Gateway.{UdpGrant}
use realtime_voice_agent.Media.Frame.{
  pack_header, pack_words, pack_word, unpack_header, unpack_word, unpack_byte, is_supported,
}
use realtime_voice_agent.Media.Wire.{parse, check_parsed}
use realtime_voice_agent.Worker.Protocol
use realtime_voice_agent.Worker.Protocol.{
  parse_session_open_object, require_exact_fields, parse_profiles, read_profiles, parse_preferred,
  validate_capabilities, encode_control,
}
use realtime_voice_agent.Worker.VoiceSession
use realtime_voice_agent.Worker.Binding.{
  Binding, Identity, init, is_valid_identity, open_session, open_parsed, accept_profile,
  opened_message, select_profile, grant_field, to_hex, hex_digit, ensure_open, event, event_fields,
}
use realtime_voice_agent.Worker.Binding.Transcripts.{
  transcript, check_transcript, require_text, advance_transcript, start_utterance, count_fragment,
  transcript_fields,
}
use realtime_voice_agent.Worker.Binding.Media.{receive_media, receive_frame, check_frame}
use realtime_voice_agent.Worker.Binding.Orders.{
  Fragment, current, IsStream, advance_all, transcripts_are_streams, receive_all,
}
use realtime_voice_agent.Worker.Handshake.{opening, session_open_is_understood}
use realtime_voice_agent.Worker.Handshake.Grant.{rva_udp_grant}
use realtime_voice_agent.Worker.Handshake.Opening.Answers.{with_udp}

abbrev plain_base64 : Base64
plain_base64 = record { encode = λ t. t; decode = λ t. some t }

abbrev no_size : Json → ℕ
no_size _ = 0

abbrev config : ClientConfig
config = record {
  device_id = codes "desk-1";
  supported_profiles = udp_opus_gcm_v1 ∷ wss_opus_v1 ∷ [];
  preferred_profile = udp_opus_gcm_v1;
  capabilities = record {
    aec = false;
    vad = false;
    wake_word = false;
    display = true;
    touch = false;
  };
}

abbrev identity : Identity
identity = record {
  expected_device_id = codes "desk-1";
  session_id = codes "sess_1";
  session_epoch = codes "epoch_1";
  media_id = 1 ∷ 2 ∷ 171 ∷ 4 ∷ 5 ∷ 6 ∷ 7 ∷ 255 ∷ [];
  media_epoch = 9;
  allowed_profiles = codes "wss-opus/1" ∷ codes "udp-opus-gcm/1" ∷ [];
  udp_grant = none;
}

abbrev grant : UdpGrant
grant = record {
  media_id = 1 ∷ 2 ∷ 171 ∷ 4 ∷ 5 ∷ 6 ∷ 7 ∷ 255 ∷ [];
  media_epoch = 9;
  uplink_key = replicate 16 1;
  uplink_salt = replicate 8 2;
  downlink_key = replicate 16 3;
  downlink_salt = replicate 8 4;
  host = codes "media.example";
  port = 7000;
  expires_at = 2000;
  probe_timeout_ms = 2000;
}

handshake_code : Unit {0}
unfolding is_valid_config is_bootstrap_identifier is_identifier is_valid_identity init
    VoiceSession.init with_udp rva_udp_grant session_open as_wire audio_profile open_session
    open_parsed accept_profile opened_message select_profile grant_field to_hex hex_digit
    encode_control parse_session_open_object require_exact_fields Protocol.require_identifier
    parse_profiles read_profiles parse_preferred validate_capabilities has_all has within at is_text
    is_audio_profile equals_number text_eq ensure_open event event_fields transcript
    check_transcript Protocol.require_uint32 Protocol.require_bounded require_text
    advance_transcript start_utterance count_fragment receive_media receive_frame check_frame
    receive_all advance_all parse check_parsed pack_header pack_words pack_word unpack_header
    unpack_word unpack_byte is_supported
handshake_code = tt

session_open_is_understood_example :
    (m : Fields) × (build_session_open config (codes "req-1") ≡ ok m)
    × (parse_session_open_object m ≡ ok (opening config (codes "req-1")))
session_open_is_understood_example =
    session_open_is_understood config (codes "req-1") (unfold handshake_code in refl)
      (unfold handshake_code in refl)

abbrev worker : Identity
worker = with_udp plain_base64 (some grant) 1000000 identity

abbrev answer : Fields
answer = opened_message (codes "req-1") (codes "udp-opus-gcm/1") (init worker)

-- The Worker after the opening, on the WSS profile.
abbrev open_binding : Binding
open_binding = record (init identity) {
  opened = true;
  selected_media_profile = some (codes "wss-opus/1");
}

abbrev delta : Fields
delta =
    event_fields (codes "transcript.delta") (transcript_fields (codes "utt-1") 0 (codes "hello"))
      open_binding

abbrev fragment : Text → ℕ → Bool → Fragment
fragment u n final = record { utterance_id = u; sequence = n; final = final }

-- A gap, a repeated number and a call after the final fragment are refused.
abbrev fragments : List Fragment
fragments =
    fragment (codes "u1") 0 false
    ∷ fragment (codes "u1") 2 false
    ∷ fragment (codes "u1") 1 true
    ∷ fragment (codes "u1") 2 false
    ∷ fragment (codes "u2") 0 false
    ∷ []

taken_fragments :
    advance_all fragments open_binding
    ≡ fragment (codes "u1") 0 false
      ∷ fragment (codes "u1") 1 true
      ∷ fragment (codes "u2") 0 false
      ∷ []
taken_fragments = unfold handshake_code in refl

transcripts_are_streams_example :
    IsStream (current open_binding) (advance_all fragments open_binding)
transcripts_are_streams_example = transcripts_are_streams fragments open_binding

unfoldable uplink_frame : ℕ → Text
uplink_frame sequence =
    pack_header (record {
      flags = 1;
      media_id = identity.media_id;
      media_epoch = 9;
      sequence = sequence;
      timestamp = 960;
      generation = 0;
      payload_length = 1;
    })
    ++ (7 ∷ [])

abbrev frames : List Text
frames = uplink_frame 0 ∷ uplink_frame 2 ∷ uplink_frame 1 ∷ codes "noise" ∷ []

taken_frames : length (receive_all frames open_binding) ≡ 2
unfolding uplink_frame
taken_frames = unfold handshake_code in refl
