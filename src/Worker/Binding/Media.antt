-- ===== src/Worker/Binding/Media.antt =====
-- The audio of a binding on the WSS profile, both ways, and the numbers of the UDP downlink.
use realtime_voice_agent.Common.{
  ℕ, ◌+◌, not, ◌||◌, Option, none, some, if◌then◌else◌, ltb, leb, nat_eq, length, option_eq, Text,
  codes, text_key, ◌==◌, Result, ok, err, nat_key, ◌>>=◌,
}
use realtime_voice_agent.Common.Json.{nat}
use realtime_voice_agent.Media.Frame.{MediaFrame, FrameError, flag_audio}
use realtime_voice_agent.Media.Wire.{parse, serialize}
use realtime_voice_agent.Worker.Protocol.{
  BindingError, code, response, frame, fail, wss_profile, require_uint32,
}
use realtime_voice_agent.Worker.Response.{ResponseRecord, note_media}
use realtime_voice_agent.Worker.Binding.{Binding, ensure_open}

pub record InboundAudioPacket : Type 0 where
  pub sequence : ℕ
  pub timestamp : ℕ
  pub payload : Text

unfoldable pub check_frame : MediaFrame → Binding → Option BindingError
check_frame f b =
    if not (f.header.media_id == b.media_id) || not (nat_eq f.header.media_epoch b.media_epoch)
    then some (code (codes "stale_media_identity"))
    else if not (nat_eq f.header.generation 0)
    then some (code (codes "invalid_uplink_generation"))
    else if not (nat_eq f.header.sequence b.next_uplink_sequence)
    then some (code (codes "invalid_media_sequence"))
    else none

unfoldable pub receive_frame :
    MediaFrame → Binding → Binding × Result BindingError InboundAudioPacket
receive_frame f b = elim (check_frame f b) [
  | some e ↦ (b, err e)
  | none ↦ (
    record b { next_uplink_sequence = b.next_uplink_sequence + 1 },
    ok (record {
      sequence = f.header.sequence;
      timestamp = f.header.timestamp;
      payload = f.payload;
    }),
  )
]

-- The result is the packet that the audio port is given.
unfoldable pub receive_media : Text → Binding → Binding × Result BindingError InboundAudioPacket
receive_media raw b = elim (ensure_open b) [
  | some e ↦ (b, err e)
  | none ↦
      if not (option_eq b.selected_media_profile (some wss_profile))
      then (b, fail (codes "transport_mismatch"))
      else elim (parse raw) [ err e ↦ (b, err (frame e)) | ok f ↦ receive_frame f b ]
]

-- A record is its identity `i` and its fields `r`, as in the coordinator.
unfoldable pub reserve_downlink_media :
    ℕ → ResponseRecord → Binding → Binding × Result BindingError ℕ
reserve_downlink_media i r b =
    if ltb 0xFFFFFFFF b.next_downlink_sequence
    then (b, fail (codes "media_sequence_exhausted"))
    else elim (note_media i r b.next_downlink_sequence b.responses).1 [
      | err e ↦ (b, err (response e))
      | ok done ↦ (
        record b {
          responses = (note_media i r b.next_downlink_sequence b.responses).0;
          next_downlink_sequence = b.next_downlink_sequence + 1;
        },
        ok b.next_downlink_sequence,
      )
    ]

unfoldable pub downlink_frame : ℕ → ℕ → Text → ResponseRecord → Binding → MediaFrame
downlink_frame sequence timestamp payload r b = record {
  header = record {
    flags = flag_audio;
    media_id = b.media_id;
    media_epoch = b.media_epoch;
    sequence = sequence;
    timestamp = timestamp;
    generation = r.target.generation;
    payload_length = length payload;
  };
  payload = payload;
}

abbrev frame_result : Result FrameError Text → Result BindingError Text
frame_result (ok wire) = ok wire
frame_result (err e) = err (frame e)

-- The number is taken even if the frame cannot be made.
unfoldable pub serialize_audio :
    Text → ℕ → ℕ → ResponseRecord → Binding → Binding × Result BindingError Text
serialize_audio payload timestamp i r b = elim (ensure_open b) [
  | some e ↦ (b, err e)
  | none ↦
      if not (option_eq b.selected_media_profile (some wss_profile))
      then (b, fail (codes "transport_mismatch"))
      else let (reserved, number) = reserve_downlink_media i r b in
        (
          reserved,
          number >>= λ sequence.
              require_uint32 0 (nat timestamp) (codes "timestamp") >>= λ timestamp.
              frame_result (serialize (downlink_frame sequence timestamp payload r b)),
        )
]

unfoldable pub note_downlink_media :
    ℕ → ResponseRecord → ℕ → Binding → Binding × Result BindingError (Unit {0})
note_downlink_media i r sequence b =
    if not (leb sequence 0xFFFFFFFF)
    then (b, fail (codes "invalid_sequence"))
    else elim (note_media i r sequence b.responses).1 [
      | err e ↦ (b, err (response e))
      | ok done ↦ (record b { responses = (note_media i r sequence b.responses).0 }, ok tt)
    ]
