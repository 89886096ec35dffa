-- ===== src/Media/Gateway/Handle.antt =====
-- `_handle`: one datagram, from the worker task of the session.
use realtime_voice_agent.Common.{
  ℕ, ◌+◌, ◌-◌, ◌/◌, Bool, true, false, not, ◌&&◌, ◌||◌, Option, none, some, [], ◌∷◌, ◌++◌, length,
  take, Text, text_key, nat_key, pair_key, option_eq, ◌==◌, if◌then◌else◌, ltb, leb, nat_eq,
  is_some, is_empty, max, Result, ok, err,
}
use realtime_voice_agent.Media.Frame.{Header, pack_word, flag_audio}
use realtime_voice_agent.Media.Wire.{UdpError, decode_udp}
use realtime_voice_agent.Media.Replay.{can_accept, contains, exceeds_forward_window, commit}
use realtime_voice_agent.Media.Gateway.{
  Cipher, Session, Address, Packet, UdpMediaError, outside_replay_window, flag_probe,
  flag_probe_ack, flag_keepalive, max_datagram_bytes, jitter_window_packets,
  probe_retry_interval_ms, count_invalid, count_replayed, count_dropped,
}
use realtime_voice_agent.Media.Gateway.Send.{Outgoing, send}
use realtime_voice_agent.Media.Gateway.Reorder.{buffer_media, resync_media_cursor}

-- The clocks that one datagram's handling reads, in order, and whether the gateway has its socket.
pub record Moment : Type 0 where
  pub now : ℕ
  pub monotonic : ℕ
  pub sending_now : ℕ
  pub acknowledged_at : ℕ
  pub transport : Bool

-- What the handler gives back: nothing, or what `_run` reports.
abbrev pub Handled : Type 0
Handled = Session × Result UdpMediaError (Unit {0})

abbrev pub done : Session → Handled
done s = (s, ok tt)

abbrev pub discard : Session × Result UdpMediaError ℕ → Handled
discard (s, ok n) = (s, ok tt)
discard (s, err e) = (s, err e)

abbrev pub packet_of : Header → Text → Packet
packet_of h payload = record {
  flags = h.flags;
  payload = payload;
  timestamp = h.timestamp;
  generation = h.generation;
}

abbrev pub ready_flags : ℕ → Bool
ready_flags flags =
    nat_eq flags flag_audio || nat_eq flags flag_probe || nat_eq flags flag_keepalive

-- The first probe again, from the pinned source, while it may be acknowledged again.
unfoldable pub is_repeated_probe : Header → Address → Moment → Session → Bool
is_repeated_probe h addr m s =
    not (can_accept h.sequence s.replay)
    && contains h.sequence s.replay
    && nat_eq h.flags flag_probe
    && nat_eq h.sequence 0
    && nat_eq h.timestamp 0
    && nat_eq h.generation 0
    && nat_eq h.payload_length 0
    && s.ready
    && option_eq s.source (some addr)
    && s.probe_reack_open
    && is_some s.probe_ack_datagram
    && leb m.monotonic s.probe_reack_deadline
    && leb s.probe_reack_next_at m.monotonic
    && ltb 0 s.probe_reack_remaining

unfoldable pub resend : Address → Text → Moment → Session → Session
resend source datagram m s = record s {
  datagrams = (source, datagram) ∷ s.datagrams;
  probe_reack_remaining = s.probe_reack_remaining - 1;
  probe_reack_next_at = m.monotonic + probe_retry_interval_ms;
  stats = record s.stats { sent = s.stats.sent + 1; probe_ack_sent = s.stats.probe_ack_sent + 1 };
}

-- The branch of the repeated probe: the stored acknowledgement is sent once more.
unfoldable pub reacknowledge : Text → Moment → Session → Session
reacknowledge payload m s = if not (is_empty payload) then count_invalid s else elim s.source [
  | none ↦ count_replayed s
  | some source ↦ elim s.probe_ack_datagram [
    | none ↦ count_replayed s
    | some datagram ↦
        if m.transport then resend source datagram m (count_replayed s) else count_replayed s
  ]
]

-- Where the cursor refuses a probe before it is committed.
unfoldable pub probe_refusal : ℕ → Session → Option Session
probe_refusal sequence s = elim s.next_audio_sequence [
  | none ↦ none
  | some expected ↦
      if ltb sequence expected
      then some (count_replayed s)
      else if leb (expected + jitter_window_packets) sequence
          || (not (nat_eq sequence expected) && leb jitter_window_packets (length s.reorder))
      then some (count_dropped 1 s)
      else none
]

unfoldable pub pin_source : Address → Session → Session
pin_source addr s = elim s.source [
  | some a ↦ s
  | none ↦ record s {
    source = some addr;
    stats = record s.stats { source_pinned = s.stats.source_pinned + 1 };
  }
]

-- `if expected is None: self._next_audio_sequence = header.sequence`
unfoldable pub start_cursor : ℕ → Session → Session
start_cursor sequence s = elim s.next_audio_sequence [
  | some e ↦ s
  | none ↦ record s { next_audio_sequence = some sequence }
]

unfoldable pub open_reack : Moment → Session → Session
open_reack m s = record s {
  probe_reack_deadline = m.acknowledged_at + s.grant.probe_timeout_ms;
  probe_reack_next_at = m.acknowledged_at + probe_retry_interval_ms;
  probe_reack_remaining =
      max 1 ((s.grant.probe_timeout_ms + probe_retry_interval_ms - 1) / probe_retry_interval_ms);
  probe_reack_open = true;
  ready = true;
}

-- After the acknowledgement: the probe takes its place in the sequence.
unfoldable pub probe_acknowledged : Header → Moment → Session → Session
probe_acknowledged h m s =
    open_reack m (buffer_media h.sequence (packet_of h []) (start_cursor h.sequence s))

abbrev pub after_acknowledgement : Header → Moment → Session × Result UdpMediaError ℕ → Handled
after_acknowledgement h m (s, err e) = (s, err e)
after_acknowledgement h m (s, ok n) = done (probe_acknowledged h m s)

abbrev pub acknowledgement : Outgoing
acknowledgement = record { flags = flag_probe_ack; payload = []; timestamp = 0; generation = 0 }

abbrev pub echo : Header → Outgoing
echo h = record {
  flags = flag_keepalive;
  payload = [];
  timestamp = h.timestamp;
  generation = h.generation;
}

-- The tests of audio and keepalives before the cursor, true where one fails.
unfoldable pub media_invalid : Header → Text → Session → Bool
media_invalid h payload s =
    not (is_some s.source)
    || not s.ready
    || (nat_eq h.flags flag_keepalive && not (is_empty payload))
    || (nat_eq h.flags flag_audio && is_empty payload)
    || not (is_some s.next_audio_sequence)

-- A jump over the whole jitter window moves the cursor.
unfoldable pub jump_cursor : ℕ → Session → Session
jump_cursor sequence s = elim s.next_audio_sequence [
  | none ↦ s
  | some expected ↦
      if leb (expected + jitter_window_packets) sequence then resync_media_cursor sequence s else s
]

-- Where the cursor refuses audio or a keepalive.
unfoldable pub media_refusal : ℕ → Session → Option Session
media_refusal sequence s = elim s.next_audio_sequence [
  | none ↦ none
  | some expected ↦
      if ltb sequence expected
      then some (count_replayed s)
      else if leb (expected + jitter_window_packets) sequence
      then none
      else if not (nat_eq sequence expected) && leb jitter_window_packets (length s.reorder)
      then some (count_dropped 1 s)
      else none
]

-- `self._probe_reack_open = False; self._replay.commit(...)`
unfoldable pub commit_media : ℕ → Session → Option Session
commit_media sequence s = elim (commit sequence s.replay) [
  | none ↦ none
  | some replay ↦ some (record s { probe_reack_open = false; replay = replay })
]

abbrev pub count_attempted : Session → Session
count_attempted s = record s {
  stats = record s.stats { authentication_attempted = s.stats.authentication_attempted + 1 };
}

abbrev pub count_authenticated : Session → Session
count_authenticated s = record s {
  stats = record s.stats { authenticated = s.stats.authenticated + 1 };
}

abbrev pub for_session : Header → Session → Bool
for_session h s = (h.media_id == s.grant.media_id) && nat_eq h.media_epoch s.grant.media_epoch

module _ (cipher : Cipher) where
  -- The rest of the branch of a probe, once its number is committed.
  unfoldable pub acknowledge : Header → Moment → Session → Handled
  acknowledge h m s =
      after_acknowledgement h m (send cipher m.sending_now m.transport acknowledgement s)

  unfoldable pub handle_probe : Header → Text → Address → Moment → Session → Handled
  handle_probe h payload addr m s =
      if not (is_empty payload)
      then done (count_invalid s)
      else if not (is_some s.source) && not (nat_eq h.sequence 0)
      then done (count_invalid s)
      else elim (probe_refusal h.sequence s) [
        | some s' ↦ done s'
        | none ↦ elim (commit h.sequence s.replay) [
          | none ↦ (s, err outside_replay_window)
          | some replay ↦ acknowledge h m (pin_source addr (record s { replay = replay }))
        ]
      ]

  unfoldable pub keep_alive : Header → Moment → Session → Handled
  keep_alive h m s =
      if nat_eq h.flags flag_keepalive
      then discard (send cipher m.sending_now m.transport (echo h) s)
      else done s

  unfoldable pub handle_media : Header → Text → Moment → Session → Handled
  handle_media h payload m s =
      if media_invalid h payload s
      then done (count_invalid s)
      else elim (media_refusal h.sequence s) [
        | some s' ↦ done s'
        | none ↦ elim (commit_media h.sequence (jump_cursor h.sequence s)) [
          | none ↦ (
            record (jump_cursor h.sequence s) { probe_reack_open = false },
            err outside_replay_window,
          )
          | some s' ↦ keep_alive h m (buffer_media h.sequence (packet_of h payload) s')
        ]
      ]

  -- An authenticated packet whose number was acceptable.
  unfoldable pub handle_fresh : Header → Text → Address → Moment → Session → Handled
  handle_fresh h payload addr m s =
      if is_some s.source && not (option_eq s.source (some addr))
      then done (record s { stats = record s.stats { wrong_source = s.stats.wrong_source + 1 } })
      else if nat_eq h.flags flag_probe
      then handle_probe h payload addr m s
      else handle_media h payload m s

  unfoldable pub decrypted : Header → Text → Text → Session → Option Text
  unfolding pack_word
  decrypted h encrypted datagram s =
      cipher.decrypt s.grant.uplink_key (s.grant.uplink_salt ++ pack_word h.sequence) encrypted
        (take 32 datagram)

  unfoldable pub authenticate : Bool → Header → Text → Text → Address → Moment → Session → Handled
  authenticate repeated h encrypted datagram addr m s = elim (decrypted h encrypted datagram s) [
    | none ↦ done (count_invalid (count_attempted s))
    | some payload ↦
        if repeated
        then done (reacknowledge payload m (count_authenticated (count_attempted s)))
        else handle_fresh h payload addr m (count_authenticated (count_attempted s))
  ]

  -- A packet of this session, of a kind that the device sends.
  unfoldable pub handle_packet : Header → Text → Text → Address → Moment → Session → Handled
  handle_packet h encrypted datagram addr m s =
      if can_accept h.sequence s.replay || is_repeated_probe h addr m s
      then authenticate (is_repeated_probe h addr m s) h encrypted datagram addr m s
      else if exceeds_forward_window h.sequence s.replay
      then done (count_invalid s)
      else done (count_replayed s)

  unfoldable pub handle_decoded :
      Text → Address → Moment → Session → Result UdpError (Header × Text) → Handled
  handle_decoded datagram addr m s (err e) = done (count_invalid s)
  handle_decoded datagram addr m s (ok (h, encrypted)) =
      if not (for_session h s && ready_flags h.flags)
      then done (count_invalid s)
      else handle_packet h encrypted datagram addr m s

  unfoldable pub handle : Text → Address → Moment → Session → Handled
  handle datagram addr m s =
      if ltb max_datagram_bytes (length datagram) || s.expired || leb s.grant.expires_at m.now
      then done (count_invalid s)
      else handle_decoded datagram addr m s (decode_udp datagram)
