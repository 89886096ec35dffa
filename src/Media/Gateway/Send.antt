-- ===== src/Media/Gateway/Send.antt =====
-- `_send` and `send_audio`.
use realtime_voice_agent.Common.{
  ℕ, ◌+◌, ◌%◌, ◌^◌, Bool, not, ◌||◌, none, some, ◌∷◌, ◌++◌, length, Text, if◌then◌else◌, ltb, leb,
  nat_eq, is_some, Result, ok, err,
}
use realtime_voice_agent.Media.Frame.{Header, pack_word, pack_header, max_payload_bytes, flag_audio}
use realtime_voice_agent.Media.Gateway.{
  Cipher, Session, Address, UdpMediaError, grant_expired, path_not_ready, payload_exceeds_limit,
  transport_unavailable, sequence_exhausted, datagram_exceeds_mtu, struct_error, flag_probe_ack,
  max_datagram_bytes,
}

-- What `_send` and `send_audio` are asked to send.
pub record Outgoing : Type 0 where
  pub flags : ℕ
  pub payload : Text
  pub timestamp : ℕ
  pub generation : ℕ

unfoldable pub header_for : Outgoing → Session → Header
header_for o s = record {
  flags = o.flags;
  media_id = s.grant.media_id;
  media_epoch = s.grant.media_epoch;
  sequence = s.downlink_sequence;
  timestamp = o.timestamp % 2 ^ 32;
  generation = o.generation;
  payload_length = length o.payload;
}

unfoldable pub nonce_for : Session → Text
unfolding pack_word
nonce_for s = s.grant.downlink_salt ++ pack_word s.downlink_sequence

-- After `sendto`.
unfoldable pub sent_to : Address → Outgoing → Text → Session → Session
sent_to source o datagram s = record s {
  datagrams = (source, datagram) ∷ s.datagrams;
  probe_ack_datagram =
      if nat_eq o.flags flag_probe_ack
      then (if is_some s.probe_ack_datagram then s.probe_ack_datagram else some datagram)
      else s.probe_ack_datagram;
  stats = record s.stats {
    sent = s.stats.sent + 1;
    probe_ack_sent = s.stats.probe_ack_sent + (if nat_eq o.flags flag_probe_ack then 1 else 0);
  };
}

-- The sequence number is taken before the header is packed and the payload encrypted.
unfoldable pub take_number : Outgoing → Session → Session
take_number o s = record s { downlink_sequence = s.downlink_sequence + 1 }

unfoldable pub note_sealed : Outgoing → Session → Session
note_sealed o s = record s {
  downlink_sequence = s.downlink_sequence + 1;
  sealed = (nonce_for s, o.payload) ∷ s.sealed;
}

module _ (cipher : Cipher) where
  unfoldable pub datagram_for : Outgoing → Session → Text
  datagram_for o s =
      let aad = pack_header (header_for o s) in
      aad ++ cipher.encrypt s.grant.downlink_key (nonce_for s) o.payload aad

  -- With a source, a transport and a number left.
  unfoldable pub send_numbered : Address → Outgoing → Session → Session × Result UdpMediaError ℕ
  send_numbered source o s =
      if ltb 0xFFFFFFFF o.generation
      then (take_number o s, err struct_error)
      else if ltb max_datagram_bytes (length (datagram_for o s))
      then (note_sealed o s, err datagram_exceeds_mtu)
      else (sent_to source o (datagram_for o s) (note_sealed o s), ok s.downlink_sequence)

  -- `now` is the reading of the clock, `transport` whether the gateway has its socket.
  unfoldable pub send : ℕ → Bool → Outgoing → Session → Session × Result UdpMediaError ℕ
  send now transport o s =
      if s.expired || leb s.grant.expires_at now
      then (s, err grant_expired)
      else if ltb max_payload_bytes (length o.payload)
      then (s, err payload_exceeds_limit)
      else elim s.source [
        | none ↦ (s, err transport_unavailable)
        | some source ↦
            if not transport
            then (s, err transport_unavailable)
            else if leb 0xFFFFFFFF s.downlink_sequence
            then (s, err sequence_exhausted)
            else send_numbered source o s
      ]

  -- `sending_now` is the second reading of the clock.
  unfoldable pub send_audio :
      ℕ → ℕ → Bool → Text → ℕ → ℕ → Session → Session × Result UdpMediaError ℕ
  send_audio now sending_now transport payload timestamp generation s =
      if s.expired || leb s.grant.expires_at now
      then (s, err grant_expired)
      else if s.closed || not (is_some s.source) || not s.ready
      then (s, err path_not_ready)
      else send sending_now transport
          (record {
            flags = flag_audio;
            payload = payload;
            timestamp = timestamp;
            generation = generation;
          })
          s
