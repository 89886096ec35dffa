-- ===== src/Media/Replay.antt =====
-- `ReplayWindow` of transport/udp_wire.py (Worker) and of protocol/udp.py (client): which packet
-- sequence numbers are admitted. The Worker's `_highest = -1` is `none` here, as in the client.
pub mod History
pub mod Delivery
pub mod Refinement
use realtime_voice_agent.Common.{
  ℕ, ◌+◌, ◌-◌, ◌^◌, Bool, true, false, not, ◌&&◌, ◌||◌, Option, none, some, if◌then◌else◌, ltb, leb,
}
use realtime_voice_agent.Common.Bits.{test_bit, set_bit, shift_left, low_bits}

abbrev pub replay_window_packets : ℕ
replay_window_packets = 64

abbrev pub max_sequence_forward_jump : ℕ
max_sequence_forward_jump = 1024

pub record Window : Type 0 where
  pub highest : Option ℕ
  pub bitmap : ℕ

unfoldable pub init : Window
init = record { highest = none; bitmap = 0 }

unfoldable pub can_accept : ℕ → Window → Bool
can_accept sequence w = elim w.highest [
  | none ↦ true
  | some h ↦
      if ltb h sequence
      then leb (sequence - h) max_sequence_forward_jump
      else ltb (h - sequence) replay_window_packets && not (test_bit w.bitmap (h - sequence))
]

unfoldable pub contains : ℕ → Window → Bool
contains sequence w = elim w.highest [
  | none ↦ false
  | some h ↦
      if ltb h sequence
      then false
      else ltb (h - sequence) replay_window_packets && test_bit w.bitmap (h - sequence)
]

unfoldable pub exceeds_forward_window : ℕ → Window → Bool
exceeds_forward_window sequence w = elim w.highest [
  | none ↦ false
  | some h ↦ ltb (h + max_sequence_forward_jump) sequence
]

-- `((bitmap << shift) | 1) & ((1 << 64) - 1)`
unfoldable pub slide : ℕ → ℕ → ℕ
slide bitmap shift = low_bits replay_window_packets (set_bit (shift_left bitmap shift) 0)

-- How the Worker moves its window up to an admitted sequence. From `_highest = -1` the shift is
-- `sequence + 1`, of an empty bitmap.
unfoldable pub advance : ℕ → Window → ℕ
unfolding slide
advance sequence w = elim w.highest [
  | none ↦ if leb replay_window_packets (sequence + 1) then 1 else slide w.bitmap (sequence + 1)
  | some h ↦ if leb replay_window_packets (sequence - h) then 1 else slide w.bitmap (sequence - h)
]

abbrev pub above : ℕ → Option ℕ → Bool
above sequence none = true
above sequence (some h) = ltb h sequence

abbrev pub offset : ℕ → Option ℕ → ℕ
offset sequence none = 0
offset sequence (some h) = h - sequence

-- `none` is the `ValueError`.
unfoldable pub commit : ℕ → Window → Option Window
unfolding advance
commit sequence w =
    if not (can_accept sequence w)
    then none
    else if above sequence w.highest
    then some (record { highest = some sequence; bitmap = advance sequence w })
    else some (record w { bitmap = set_bit w.bitmap (offset sequence w.highest) })

-- The client also wants a 32-bit sequence.
unfoldable pub client_acceptable : ℕ → Window → Bool
client_acceptable sequence w = if not (leb sequence 0xFFFFFFFF) then false else elim w.highest [
  | none ↦ true
  | some h ↦
      if ltb h sequence
      then leb (sequence - h) max_sequence_forward_jump
      else ltb (h - sequence) replay_window_packets && not (test_bit w.bitmap (h - sequence))
]

unfoldable pub client_commit : ℕ → Window → Option Window
unfolding slide
client_commit sequence w = if not (client_acceptable sequence w) then none else elim w.highest [
  | none ↦ some (record { highest = some sequence; bitmap = 1 })
  | some h ↦
      if ltb h sequence
      then some (record { highest = some sequence; bitmap = slide w.bitmap (sequence - h) })
      else some (record w { bitmap = set_bit w.bitmap (h - sequence) })
]
