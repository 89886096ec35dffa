-- ===== src/Client/SessionState/Playout.antt =====
-- The facts that the client reports, `playback_started`, `playback_ended`, `cancel_request` and
-- `close_message`; the message that is sent is in the arguments.
use realtime_voice_agent.Common.{
  ℕ, Bool, true, false, not, ◌&&◌, ◌||◌, Option, none, some, ◌∷◌, leb, nat_eq, take, if◌then◌else◌,
  text_key, nat_key, option_eq, Result, ok, err, is_some,
}
use realtime_voice_agent.Common.Dict.{remove}
use realtime_voice_agent.Client.SessionState.{
  Playback, State, PlaybackTarget, ClientError, session_closed, playback_already_started,
  playback_already_ended, playback_evidence_mismatch, invalid_played_samples,
  invalid_first_media_sequence, invalid_last_media_sequence, invalid_close_detail, require_known,
  require_current, write_playback, is_current, tombstone_limit,
}

pub data PlaybackOutcome : Type 0 where
  completed stopped failed : PlaybackOutcome

abbrev pub is_completed : PlaybackOutcome → Bool
is_completed completed = true
is_completed stopped = false
is_completed failed = false

unfoldable pub check_started : Playback → ℕ → Option ClientError
check_started p first_media_sequence =
    if p.started
    then some playback_already_started
    else if p.ended
    then some playback_already_ended
    else if not (leb first_media_sequence 0xFFFFFFFF)
    then some invalid_first_media_sequence
    else if p.stopped || not (option_eq (some first_media_sequence) p.first_media_sequence)
    then some playback_evidence_mismatch
    else none

unfoldable pub playback_started : PlaybackTarget → ℕ → State → State × Result ClientError (Unit {0})
playback_started target first_media_sequence s = elim (require_known target s) [
  | err e ↦ (s, err e)
  | ok p ↦ elim (check_started p first_media_sequence) [
    | some e ↦ (s, err e)
    | none ↦ (write_playback (record p { started = true }) s, ok tt)
  ]
]

-- The tests on `last_media_sequence`.
unfoldable pub check_last : Playback → ℕ → Option ℕ → Option ClientError
check_last p played_samples none =
    if nat_eq played_samples 0 then none else some playback_evidence_mismatch
check_last p played_samples (some last) =
    if not (leb last 0xFFFFFFFF)
    then some invalid_last_media_sequence
    else if not p.started || not (option_eq (some last) p.last_media_sequence)
    then some playback_evidence_mismatch
    else none

-- The further evidence that a completed playback needs.
unfoldable pub lacks_completion : Playback → ℕ → Option ℕ → Bool
lacks_completion p played_samples last =
    not p.started
    || not p.response_terminal
    || not (is_some p.final_media_sequence)
    || nat_eq played_samples 0
    || not (option_eq last p.final_media_sequence)

unfoldable pub check_ended : Playback → PlaybackOutcome → ℕ → Option ℕ → Option ClientError
check_ended p outcome played_samples last =
    if p.ended
    then some playback_already_ended
    else if not (leb played_samples 0xFFFFFFFFFFFFFFFF)
    then some invalid_played_samples
    else if nat_eq played_samples 0 && is_some last
    then some playback_evidence_mismatch
    else elim (check_last p played_samples last) [
      | some e ↦ some e
      | none ↦
          if p.started && nat_eq played_samples 0
          then some playback_evidence_mismatch
          else if is_completed outcome && lacks_completion p played_samples last
          then some playback_evidence_mismatch
          else none
    ]

-- From `playback.ended = True` on. If the playback is a tombstone, the same object is appended again.
unfoldable pub retire : Playback → PlaybackTarget → State → State
retire p target s =
    let ended = record p { ended = true } in
    record s {
      current_playback = if is_current target s then none else s.current_playback;
      playbacks = remove target.generation s.playbacks;
      response_text_sequence = remove target.generation s.response_text_sequence;
      last_media_timestamp = remove target.generation s.last_media_timestamp;
      playback_tombstones = take tombstone_limit (ended ∷ s.playback_tombstones);
    }

unfoldable pub playback_ended :
    PlaybackTarget → PlaybackOutcome → ℕ → Option ℕ → State → State × Result ClientError (Unit {0})
playback_ended target outcome played_samples last s = elim (require_known target s) [
  | err e ↦ (s, err e)
  | ok p ↦ elim (check_ended p outcome played_samples last) [
    | some e ↦ (s, err e)
    | none ↦ (retire p target s, ok tt)
  ]
]

unfoldable pub cancel_request : PlaybackTarget → State → Result ClientError (Unit {0})
cancel_request target s = elim (require_current target s) [ err e ↦ err e | ok p ↦ ok tt ]

-- `detail_ok`: no NUL byte in the detail and at most 256 bytes of it. The reason is one of the five.
unfoldable pub close_message : Bool → State → State × Result ClientError (Unit {0})
close_message detail_ok s =
    if s.closed
    then (s, err session_closed)
    else if not detail_ok
    then (s, err invalid_close_detail)
    else (record s { closed = true }, ok tt)
