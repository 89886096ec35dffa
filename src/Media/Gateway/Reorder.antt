-- ===== src/Media/Gateway/Reorder.antt =====
-- The reorder buffer: `_buffer_media`, `_resync_media_cursor`, `_drain_reorder` and what
-- `_expire_reorder_gap` does after its wait.
use realtime_voice_agent.Common.{
  ℕ, zero, suc, ◌+◌, ◌-◌, Bool, true, false, not, ◌&&◌, Option, none, some, [], ◌∷◌, if◌then◌else◌,
  ltb, leb, nat_eq, length, is_empty, nat_key, min,
}
use realtime_voice_agent.Common.Dict.{Dict, get, put, remove}
use realtime_voice_agent.Media.Frame.{flag_audio}
use realtime_voice_agent.Media.Gateway.{
  Session, Packet, Timer, no_timer, pending, ended, count_invalid, count_replayed, count_dropped,
  jitter_window_packets,
}

-- The packet under the expected number goes to the receiver, if it is audio, and the cursor moves on.
unfoldable pub hear : ℕ → Packet → Session → Session
hear expected p s = record s {
  heard = if nat_eq p.flags flag_audio then (expected, p) ∷ s.heard else s.heard;
  next_audio_sequence = some (expected + 1);
}

-- A round of the loop of `_drain_reorder`.
unfoldable pub take_next : ℕ → Packet → Session → Session
take_next expected p s = hear expected p (record s { reorder = remove expected s.reorder })

-- The loop; the first argument bounds its rounds.
unfoldable pub drain_loop : ℕ → ℕ → Session → Session
drain_loop zero expected s = s
drain_loop (suc rounds) expected s = elim (get expected s.reorder) [
  | none ↦ s
  | some p ↦ drain_loop rounds (expected + 1) (take_next expected p s)
]

abbrev is_no_timer : Timer → Bool
is_no_timer no_timer = true
is_no_timer pending = false
is_no_timer ended = false

unfoldable pub settle_timer : Session → Session
settle_timer s =
    if is_empty s.reorder && not (is_no_timer s.reorder_timer)
    then record s { reorder_timer = no_timer }
    else if not (is_empty s.reorder) && is_no_timer s.reorder_timer
    then record s { reorder_timer = pending }
    else s

-- Each round takes a packet out of the buffer.
unfoldable pub drain_reorder : Session → Session
drain_reorder s = elim s.next_audio_sequence [
  | none ↦ settle_timer s
  | some expected ↦ settle_timer (drain_loop (length s.reorder + 1) expected s)
]

unfoldable pub resync : ℕ → ℕ → Session → Session
resync sequence expected s = record s {
  stats = record s.stats {
    resync_total = s.stats.resync_total + 1;
    skipped_sequences_total = s.stats.skipped_sequences_total + (sequence - expected);
    lost = s.stats.lost + (sequence - expected);
    queue_dropped = s.stats.queue_dropped + length s.reorder;
  };
  reorder = [];
  reorder_timer = no_timer;
  next_audio_sequence = some sequence;
}

unfoldable pub resync_media_cursor : ℕ → Session → Session
resync_media_cursor sequence s = elim s.next_audio_sequence [
  | none ↦ s
  | some expected ↦ if leb sequence expected then s else resync sequence expected s
]

-- The rest of `_buffer_media`, the packet being at or above the expected number and within the window.
unfoldable pub buffer_at : ℕ → Packet → ℕ → Session → Session
buffer_at sequence p expected s =
    if leb jitter_window_packets (length s.reorder)
    then (if nat_eq sequence expected then drain_reorder (hear expected p s) else count_dropped 1 s)
    else drain_reorder (record s {
      stats = record s.stats {
        reordered = s.stats.reordered + (if nat_eq sequence expected then 0 else 1);
      };
      reorder = put sequence p s.reorder;
    })

unfoldable pub buffer_media : ℕ → Packet → Session → Session
buffer_media sequence p s = elim s.next_audio_sequence [
  | none ↦ count_invalid s
  | some expected ↦
      if ltb sequence expected
      then count_replayed s
      else if leb (expected + jitter_window_packets) sequence
      then buffer_at sequence p sequence (resync_media_cursor sequence s)
      else buffer_at sequence p expected s
]

-- `min` of the keys.
unfoldable pub first_key : Dict ℕ Packet → Option ℕ
first_key [] = none
first_key ((k, p) ∷ d) = elim (first_key d) [ none ↦ some k | some j ↦ some (min k j) ]

unfoldable pub skip_gap : ℕ → Session → Session
skip_gap first s = elim s.next_audio_sequence [
  | none ↦ s
  | some expected ↦ if not (ltb expected first) then s else record s {
    stats = record s.stats { lost = s.stats.lost + (first - expected) };
    next_audio_sequence = some first;
  }
]

-- A timer that fires has ended, until `_drain_reorder` starts another.
unfoldable pub expire_reorder_gap : Session → Session
expire_reorder_gap s = elim (first_key s.reorder) [
  | none ↦ record s { reorder_timer = ended }
  | some first ↦
      if s.closed
      then record s { reorder_timer = ended }
      else drain_reorder (record (skip_gap first s) { reorder_timer = no_timer })
]
