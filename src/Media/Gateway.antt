-- ===== src/Media/Gateway.antt =====
-- transport/udp_gateway.py of the Worker: `UdpMediaSession`, one device's authenticated UDP path. The
-- state of a session; its operations are in the modules below, and `UdpMediaGateway` in Routing.
--
-- Monotonic readings and the probe timeout are milliseconds, wall-clock readings and the expiry ticks of
-- one unit. A step is what runs between two points where the event loop can change tasks; the audio
-- receiver is taken to return, neither suspending nor raising.
pub mod Send
pub mod Reorder
pub mod Handle
pub mod Events
pub mod Moves
pub mod Drained
pub mod Keeps
pub mod Sending
pub mod Handling
pub mod Traces
pub mod Buffered
pub mod Played
pub mod Nonces
pub mod Pinned
pub mod Genuine
pub mod Silence
pub mod Routing
mod Tests
use realtime_voice_agent.Common.{
  ℕ, ◌+◌, ◌*◌, Bool, true, false, Option, none, some, List, [], ◌∷◌, Text, if◌then◌else◌, is_empty,
}
use realtime_voice_agent.Common.Dict.{Dict}
use realtime_voice_agent.Media.Replay.{Window, init}

-- A socket address: host and port.
abbrev pub Address : Type 0
Address = Text × ℕ

abbrev pub flag_probe : ℕ
flag_probe = 2

abbrev pub flag_probe_ack : ℕ
flag_probe_ack = 4

abbrev pub flag_keepalive : ℕ
flag_keepalive = 8

abbrev pub max_datagram_bytes : ℕ
max_datagram_bytes = 1280

abbrev pub jitter_window_packets : ℕ
jitter_window_packets = 4

abbrev pub probe_retry_interval_ms : ℕ
probe_retry_interval_ms = 250

-- AES-GCM of `cryptography`: key, nonce, data and associated data. `decrypt` is `none` where the
-- library raises.
pub record Cipher : Type 0 where
  pub encrypt : Text → Text → Text → Text → Text
  pub decrypt : Text → Text → Text → Text → Option Text

pub record UdpGrant : Type 0 where
  pub media_id : Text
  pub media_epoch : ℕ
  pub uplink_key : Text
  pub uplink_salt : Text
  pub downlink_key : Text
  pub downlink_salt : Text
  pub host : Text
  pub port : ℕ
  pub expires_at : ℕ
  pub probe_timeout_ms : ℕ

pub record Stats : Type 0 where
  pub received : ℕ
  pub media_identity_matched : ℕ
  pub authentication_attempted : ℕ
  pub authenticated : ℕ
  pub source_pinned : ℕ
  pub probe_ack_sent : ℕ
  pub invalid : ℕ
  pub replayed : ℕ
  pub wrong_source : ℕ
  pub queue_dropped : ℕ
  pub sent : ℕ
  pub lost : ℕ
  pub reordered : ℕ
  pub resync_total : ℕ
  pub skipped_sequences_total : ℕ

pub data UdpMediaError : Type 0 where
  grant_expired path_not_ready payload_exceeds_limit transport_unavailable : UdpMediaError
  sequence_exhausted datagram_exceeds_mtu gateway_unavailable gateway_closed : UdpMediaError
  -- `struct.error` of a field over 32 bits, and the `ValueError` of `ReplayWindow.commit`
  struct_error outside_replay_window : UdpMediaError

-- What the reorder buffer holds under a sequence number.
pub record Packet : Type 0 where
  pub flags : ℕ
  pub payload : Text
  pub timestamp : ℕ
  pub generation : ℕ

-- `_reorder_timer`: `None`, a task that waits, or one that ended or was cancelled.
pub data Timer : Type 0 where
  no_timer pending ended : Timer

-- The fields of a session. `heard` is the calls of `receive_audio`, with the number each packet came
-- under; `datagrams` the calls of `sendto`; `sealed` the nonce and the payload of each call of
-- `encrypt`; `failures` the calls of `report_failure`: each with the newest first.
pub record Session : Type 0 where
  pub grant : UdpGrant
  pub queue_size : ℕ
  pub queue : List (Option (Text × Address))
  pub running : Bool
  pub ready : Bool
  pub closed : Bool
  pub expired : Bool
  pub source : Option Address
  pub replay : Window
  pub downlink_sequence : ℕ
  pub next_audio_sequence : Option ℕ
  pub probe_ack_datagram : Option Text
  pub probe_reack_deadline : ℕ
  pub probe_reack_next_at : ℕ
  pub probe_reack_remaining : ℕ
  pub probe_reack_open : Bool
  pub reorder : Dict ℕ Packet
  pub reorder_timer : Timer
  pub stats : Stats
  pub heard : List (ℕ × Packet)
  pub datagrams : List (Address × Text)
  pub sealed : List (Text × Text)
  pub failures : List UdpMediaError

abbrev pub no_stats : Stats
no_stats = record {
  received = 0;
  media_identity_matched = 0;
  authentication_attempted = 0;
  authenticated = 0;
  source_pinned = 0;
  probe_ack_sent = 0;
  invalid = 0;
  replayed = 0;
  wrong_source = 0;
  queue_dropped = 0;
  sent = 0;
  lost = 0;
  reordered = 0;
  resync_total = 0;
  skipped_sequences_total = 0;
}

unfoldable pub new_session : UdpGrant → ℕ → Session
new_session grant queue_size = record {
  grant = grant;
  queue_size = queue_size;
  queue = [];
  running = true;
  ready = false;
  closed = false;
  expired = false;
  source = none;
  replay = init;
  downlink_sequence = 0;
  next_audio_sequence = none;
  probe_ack_datagram = none;
  probe_reack_deadline = 0;
  probe_reack_next_at = 0;
  probe_reack_remaining = 0;
  probe_reack_open = false;
  reorder = [];
  reorder_timer = no_timer;
  stats = no_stats;
  heard = [];
  datagrams = [];
  sealed = [];
  failures = [];
}

-- `self.stats.invalid += 1` and its likes.
abbrev pub count_invalid : Session → Session
count_invalid s = record s { stats = record s.stats { invalid = s.stats.invalid + 1 } }

abbrev pub count_replayed : Session → Session
count_replayed s = record s { stats = record s.stats { replayed = s.stats.replayed + 1 } }

abbrev pub count_dropped : ℕ → Session → Session
count_dropped n s = record s {
  stats = record s.stats { queue_dropped = s.stats.queue_dropped + n };
}
