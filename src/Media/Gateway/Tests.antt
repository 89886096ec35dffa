-- ===== src/Media/Gateway/Tests.antt =====
-- A device's datagrams at a session, with a cipher that adds a tag of zeros, and the gateway's table.
use realtime_voice_agent.Common.{
  ℕ, ◌-◌, ◌≡◌, refl, true, false, some, List, [], ◌∷◌, ◌++◌, length, take, replicate, codes, Text,
  text_key, text_eq, is_unique,
}
use realtime_voice_agent.Common.Bits.{test_bit, set_bit, shift_left, low_bits}
use realtime_voice_agent.Common.Dict.{get, put, remove}
use realtime_voice_agent.Media.Frame.{
  pack_header, pack_words, pack_word, unpack_header, unpack_word, unpack_byte, is_supported,
}
use realtime_voice_agent.Media.Wire.{decode_udp, check_udp}
use realtime_voice_agent.Media.Replay.{
  init, can_accept, contains, commit, advance, slide, exceeds_forward_window,
}
use realtime_voice_agent.Media.Gateway.{
  Cipher, UdpGrant, Session, Packet, Address, new_session, gateway_closed,
}
use realtime_voice_agent.Media.Gateway.Send.{
  send, send_numbered, send_audio, sent_to, note_sealed, take_number, nonce_for, datagram_for,
  header_for,
}
use realtime_voice_agent.Media.Gateway.Reorder.{
  hear, take_next, drain_loop, drain_reorder, settle_timer, buffer_media, buffer_at,
  resync_media_cursor, resync, expire_reorder_gap, first_key, skip_gap,
}
use realtime_voice_agent.Media.Gateway.Handle.{
  Moment, handle, handle_decoded, handle_packet, authenticate, decrypted, handle_fresh,
  handle_probe, handle_media, acknowledge, probe_acknowledged, start_cursor, open_reack, pin_source,
  probe_refusal, media_refusal, media_invalid, jump_cursor, commit_media, keep_alive,
  is_repeated_probe, reacknowledge, resend,
}
use realtime_voice_agent.Media.Gateway.Events.{
  Event, arrives, works, gap_ends, sends, run, step, work, enqueue, push_dropping, expire,
}
use realtime_voice_agent.Media.Gateway.Moves.{view, IsDrained}
use realtime_voice_agent.Media.Gateway.Drained.{drain_reorder-IsDrained}
use realtime_voice_agent.Media.Gateway.Nonces.{nonces, nonces_never_repeat}
use realtime_voice_agent.Media.Gateway.Pinned.{IsAddressed, source_is_pinned}
use realtime_voice_agent.Media.Gateway.Genuine.{AllGenuine, heard_is_genuine}
use realtime_voice_agent.Media.Gateway.Routing.{
  Gateway, new_gateway, create_session, is_ready, start, transport_started, is_current_transport,
  fresh_grant, fail_transport, transport_failed, route_datagram,
}
use realtime_voice_agent.Media.Gateway.Routing.Sockets
use realtime_voice_agent.Media.Gateway.Routing.Sockets.{
  starts, connects, fails, created_session_is_new,
}

abbrev tag : Text
tag = replicate 16 0

abbrev toy_cipher : Cipher
toy_cipher = record {
  encrypt = λ key nonce data_bytes aad. data_bytes ++ tag;
  decrypt = λ key nonce data_bytes aad. some (take (length data_bytes - 16) data_bytes);
}

abbrev grant : UdpGrant
grant = record {
  media_id = codes "mediaid8";
  media_epoch = 3;
  uplink_key = codes "uplink";
  uplink_salt = codes "saltup..";
  downlink_key = codes "downlink";
  downlink_salt = codes "saltdown";
  host = codes "host";
  port = 9;
  expires_at = 1000;
  probe_timeout_ms = 2000;
}

abbrev phone : Address
phone = (codes "phone", 4000)

abbrev other_phone : Address
other_phone = (codes "other", 4001)

unfoldable datagram_of : ℕ → ℕ → Text → Text
datagram_of flags sequence payload =
    pack_header (record {
      flags = flags;
      media_id = codes "mediaid8";
      media_epoch = 3;
      sequence = sequence;
      timestamp = 960;
      generation = 0;
      payload_length = length payload;
    })
    ++ (payload ++ tag)

abbrev moment : Moment
moment = record {
  now = 10;
  monotonic = 100;
  sending_now = 11;
  acknowledged_at = 101;
  transport = true;
}

abbrev data_events : List Event
data_events =
    arrives (datagram_of 2 0 []) phone
    ∷ works moment
    ∷ arrives (datagram_of 1 2 (7 ∷ [])) phone
    ∷ works moment
    ∷ arrives (datagram_of 1 1 (9 ∷ [])) other_phone
    ∷ works moment
    ∷ arrives (datagram_of 1 1 (8 ∷ [])) phone
    ∷ works moment
    ∷ arrives (datagram_of 1 4 (6 ∷ [])) phone
    ∷ works moment
    ∷ gap_ends
    ∷ sends 12 13 true (5 ∷ []) 960 1
    ∷ []

abbrev fresh : Session
fresh = new_session grant 4

abbrev numbers_of : List (ℕ × Packet) → List ℕ
numbers_of [] = []
numbers_of ((k, p) ∷ rest) = k ∷ numbers_of rest

session_code : Unit {0}
unfolding new_session datagram_of run step work enqueue push_dropping expire handle handle_decoded
    handle_packet authenticate decrypted handle_fresh handle_probe handle_media acknowledge
    probe_acknowledged start_cursor open_reack pin_source probe_refusal media_refusal media_invalid
    jump_cursor commit_media keep_alive is_repeated_probe reacknowledge resend hear take_next
    drain_loop drain_reorder settle_timer buffer_media buffer_at resync_media_cursor resync
    expire_reorder_gap first_key skip_gap send send_numbered send_audio sent_to note_sealed
    take_number nonce_for datagram_for header_for init can_accept contains commit advance slide
    exceeds_forward_window decode_udp check_udp pack_header pack_words pack_word unpack_header
    unpack_word unpack_byte is_supported get put remove test_bit set_bit shift_left low_bits text_eq
session_code = tt

-- The packet from another address is not heard; 3 never comes, and 4 is heard when its wait is over.
heard_numbers : numbers_of (run toy_cipher data_events fresh).heard ≡ 4 ∷ 2 ∷ 1 ∷ []
heard_numbers = unfold session_code in refl

source_after : (run toy_cipher data_events fresh).source ≡ some phone
source_after = unfold session_code in refl

sealed_count : length (run toy_cipher data_events fresh).sealed ≡ 2
sealed_count = unfold session_code in refl

open_after : (run toy_cipher data_events fresh).expired ≡ false
open_after = unfold session_code in refl

nonces_never_repeat_example :
    is_unique (nonces (run toy_cipher data_events (new_session grant 4)).sealed) ≡ true
nonces_never_repeat_example = nonces_never_repeat toy_cipher grant 4 data_events

heard_is_genuine_example :
    AllGenuine toy_cipher grant (run toy_cipher data_events (new_session grant 4)).heard
heard_is_genuine_example = heard_is_genuine toy_cipher grant 4 data_events

source_is_pinned_example :
    let t = run toy_cipher data_events (run toy_cipher data_events (new_session grant 4)) in
    (t.source ≡ some phone) × IsAddressed (some phone) t.datagrams
source_is_pinned_example =
    source_is_pinned toy_cipher grant 4 data_events data_events phone source_after

abbrev packet : Packet
packet = record { flags = 1; payload = 1 ∷ []; timestamp = 0; generation = 0 }

-- A session whose cursor has come to 5 with 5, 6 and 8 waiting.
abbrev waiting : Session
waiting = record (new_session grant 4) {
  next_audio_sequence = some 5;
  reorder = (6, packet) ∷ (8, packet) ∷ (5, packet) ∷ [];
}

waiting_drains : numbers_of (drain_reorder waiting).heard ≡ 6 ∷ 5 ∷ []
waiting_drains = unfold session_code in refl

drain_reorder-IsDrained_example : IsDrained (view (drain_reorder waiting))
drain_reorder-IsDrained_example = drain_reorder-IsDrained waiting 5 refl

gateway_code : Unit {0}
unfolding Sockets.run Sockets.step new_gateway create_session is_ready start transport_started
    is_current_transport fresh_grant fail_transport transport_failed route_datagram datagram_of
    new_session get put text_eq pack_header pack_words pack_word
gateway_code = tt

-- The first socket fails, a second one is made.
abbrev restarts : List Sockets.Call
restarts = starts ∷ connects 1 ∷ fails gateway_closed ∷ starts ∷ connects 2 ∷ []

abbrev gateway : Gateway
gateway = record new_gateway {
  transport = some 1;
  protocol = some 1;
  transport_generation = 1;
  sessions = (codes "mediaid7", record fresh { ready = true }) ∷ [];
}
