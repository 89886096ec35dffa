-- ===== src/Client/SessionState/MediaGate.antt =====
-- `accept_media` and `validate_media_admission`.
use realtime_voice_agent.Common.{
  ℕ, ◌+◌, ◌-◌, ◌%◌, Bool, true, false, not, ◌&&◌, ◌||◌, Option, none, some, ltb, nat_eq,
  if◌then◌else◌, text_key, nat_key, ◌==◌, Result, ok, err, is_some,
}
use realtime_voice_agent.Common.Dict.{get, put}
use realtime_voice_agent.Media.Frame.{Header, flag_audio}
use realtime_voice_agent.Client.SessionState.{
  Playback, State, ClientError, session_closed, invalid_media_sequence, stale_media_identity,
  invalid_media_flags, unknown_media_generation, playback_target_mismatch, invalid_media_timestamp,
  find_playback, is_current,
}

-- `(frame.timestamp - previous_timestamp) & 0xFFFFFFFF`, of two 32-bit numbers
unfoldable pub timestamp_delta : ℕ → ℕ → ℕ
timestamp_delta timestamp previous = (timestamp + 0x100000000 - previous) % 0x100000000

unfoldable pub invalid_timestamp : Bool → Option ℕ → ℕ → Bool
invalid_timestamp over_wss none timestamp = false
invalid_timestamp over_wss (some previous) timestamp =
    let delta = timestamp_delta timestamp previous in
    if over_wss then not (nat_eq delta 960) else nat_eq delta 0 || not (nat_eq (delta % 960) 0)

unfoldable pub admit_playback : Header → Playback → State → Result ClientError Bool
admit_playback frame p s =
    if ltb frame.generation s.fence_generation || p.stopped || p.ended
    then ok false
    else if not (is_current p.target s)
    then err playback_target_mismatch
    else if invalid_timestamp s.opened.over_wss (get frame.generation s.last_media_timestamp)
        frame.timestamp
    then err invalid_media_timestamp
    else ok true

unfoldable pub validate_media_admission : Header → State → Result ClientError Bool
validate_media_admission frame s =
    if not ((frame.media_id == s.opened.media_id) && nat_eq frame.media_epoch s.opened.media_epoch)
    then err stale_media_identity
    else if not (nat_eq frame.flags flag_audio)
    then err invalid_media_flags
    else elim (find_playback frame.generation s) [
      | none ↦ err unknown_media_generation
      | some p ↦ admit_playback frame p s
    ]

unfoldable pub out_of_sequence : Header → State → Bool
out_of_sequence frame s =
    if s.opened.over_wss
    then not (nat_eq frame.sequence s.next_downlink_sequence)
    else ltb frame.sequence s.next_downlink_sequence

-- The playback with the frame's sequence noted. `self._playbacks[frame.generation]` of an admitted
-- frame is the playback that was found.
unfoldable pub note_frame : Header → Playback → Playback
note_frame frame p = record p {
  first_media_sequence =
      if is_some p.first_media_sequence then p.first_media_sequence else some frame.sequence;
  last_media_sequence = some frame.sequence;
}

unfoldable pub record_frame : Header → State → State
record_frame frame s = elim (get frame.generation s.playbacks) [
  | none ↦ s
  | some p ↦ record s { playbacks = put frame.generation (note_frame frame p) s.playbacks }
]

-- The generation of the media event, or `none` for a frame that is dropped.
unfoldable pub accept_media : Header → State → State × Result ClientError (Option ℕ)
accept_media frame s =
    if s.closed then (s, err session_closed) else elim (validate_media_admission frame s) [
      | err e ↦ (s, err e)
      | ok admitted ↦
          if out_of_sequence frame s
          then (s, err invalid_media_sequence)
          else if not admitted
          then (record s { next_downlink_sequence = frame.sequence + 1 }, ok none)
          else (
            record_frame frame (record s {
              next_downlink_sequence = frame.sequence + 1;
              last_media_timestamp = put frame.generation frame.timestamp s.last_media_timestamp;
            }),
            ok (some frame.generation),
          )
    ]
