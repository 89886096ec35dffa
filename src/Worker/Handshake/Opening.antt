-- ===== src/Worker/Handshake/Opening.antt =====
-- The answer of the Worker to the opening message of a client.
pub mod Answers
use realtime_voice_agent.Common.{◌≤◌, length, leb, nat_eq, text_key, text_eq, eq_refl}
use realtime_voice_agent.Common.Json.{Json, str, at, has, has_all, within, is_text, equals_number}
use realtime_voice_agent.Client.Messages.{
  wss_opus_v1, udp_opus_gcm_v1, media_profile_key, exact, uint32, bounded_int,
}
use realtime_voice_agent.Client.Messages
use realtime_voice_agent.Client.Messages.Server.{
  validate_server_message, message_kind, kind_of, validate_kind, validate_opened,
}
use realtime_voice_agent.Client.Messages.Opened
use realtime_voice_agent.Client.Messages.Opened.{
  SessionOpened, read_opened, parse_udp_grant, parse_grant_fields, parse_media_id, profile_of,
  from_hex, has_upper,
}
use realtime_voice_agent.Worker.Protocol.{wss_profile}
use realtime_voice_agent.Worker.Binding.{Binding, grant_field, to_hex}
use realtime_voice_agent.Worker.VoiceSession
use realtime_voice_agent.Worker.Handshake.{audio_profile_lem}
use realtime_voice_agent.Worker.Handshake.Grant.{
  IsUsable, granted, parse_grant_fields-rva_udp_grant, from_hex-to_hex, has_upper-to_hex,
}
