-- ===== src/Worker/Response/Playback.antt =====
-- The playback facts of the device: `playback_started` and `playback_ended` of the coordinator.
use realtime_voice_agent.Common.{
  ℕ, Bool, true, false, not, ◌&&◌, ◌||◌, Option, none, some, ltb, leb, nat_eq, option_eq,
  if◌then◌else◌, Text, text_key, nat_key, Result, ok, err,
}
use realtime_voice_agent.Common.Dict.{get}
use realtime_voice_agent.Worker.VoiceSession.{finish_playback}
use realtime_voice_agent.Worker.Response.{
  ResponseOutcome, PlaybackOutcome, ResponseError, ResponseRecord, Coordinator, response_key,
  is_object, write, stale_generation, duplicate_playback_started, duplicate_playback_ended,
  invalid_playback_sequence, invalid_playback_outcome, playback_evidence_mismatch, completed,
  cancelled, failed, stopped,
}

abbrev pub in_range : ℕ → Option ℕ → Option ℕ → Bool
in_range n (some first) (some last) = leb first n && leb n last
in_range n _ _ = false

unfoldable pub find_record : Text → ℕ → Coordinator → Option (ℕ × ResponseRecord)
find_record response_id generation c = elim (get (response_id, generation) c.records) [
  | none ↦ none
  | some i ↦ elim (get i c.objects) [ none ↦ none | some r ↦ some (i, r) ]
]

unfoldable pub start_record :
    ℕ → ResponseRecord → ℕ → Coordinator → Coordinator × Result ResponseError ℕ
start_record i r first_media_sequence c =
    if r.playback_started || r.playback_ended
    then (c, err duplicate_playback_started)
    else if not (in_range first_media_sequence r.first_media_sequence r.last_media_sequence)
    then (c, err invalid_playback_sequence)
    else (write i (record r { playback_started = true }) c, ok i)

unfoldable pub playback_started : Text → ℕ → ℕ → Coordinator → Coordinator × Result ResponseError ℕ
unfolding start_record
playback_started response_id generation first_media_sequence c =
    elim (find_record response_id generation c) [
      | none ↦ (c, err stale_generation)
      | some (i, r) ↦ start_record i r first_media_sequence c
    ]

-- `outcome in expected`
unfoldable pub is_expected : ResponseRecord → PlaybackOutcome → Bool
is_expected r outcome = elim r.outcome [
  | none ↦ false
  | some o ↦ elim o [
    | cancelled ↦ elim outcome [ stopped ↦ true | _ ↦ false ]
    | failed ↦ elim outcome [ failed ↦ true | _ ↦ false ]
    | completed ↦ elim outcome [
      | stopped ↦ r.stop_sent
      | completed ↦ not r.stop_sent
      | failed ↦ not r.stop_sent
    ]
  ]
]

abbrev pub is_completed : PlaybackOutcome → Bool
is_completed completed = true
is_completed _ = false

-- `last_media_sequence > record.last_media_sequence`, and the two tests before it.
abbrev invalid_last : ℕ → ℕ → Option ℕ → Bool
invalid_last played_samples last none = true
invalid_last played_samples last (some recorded) = nat_eq played_samples 0 || ltb recorded last

-- The tests on the evidence of a playback end; `none` if they pass.
unfoldable pub check_end : ResponseRecord → PlaybackOutcome → ℕ → Option ℕ → Option ResponseError
check_end r outcome played_samples last =
    if not (is_expected r outcome)
    then some invalid_playback_outcome
    else if is_completed outcome && nat_eq played_samples 0
    then some playback_evidence_mismatch
    else if is_completed outcome && not (option_eq last r.last_media_sequence)
    then some invalid_playback_sequence
    else if is_completed outcome
    then none
    else elim last [
      | none ↦ none
      | some n ↦
          if invalid_last played_samples n r.last_media_sequence
          then some invalid_playback_sequence
          else none
    ]

abbrev is_completed_response : Option ResponseOutcome → Bool
is_completed_response none = false
is_completed_response (some completed) = true
is_completed_response (some _) = false

unfoldable pub needs_finish : ResponseRecord → Bool
needs_finish r = is_completed_response r.outcome && not r.stop_sent

-- From `record.playback_ended = True` on.
unfoldable pub settle_end : ℕ → ResponseRecord → Coordinator → Coordinator × Result ResponseError ℕ
settle_end i r c =
    let ended = write i (record r { playback_ended = true }) c in
    if needs_finish r
    then (let (session, finished) = finish_playback r.target c.session in
        if finished
        then (record ended { session = session; playback = none }, ok i)
        else (record ended { session = session }, err stale_generation))
    else (record ended { playback = none }, ok i)

unfoldable pub end_record :
    ℕ
    → ResponseRecord
    → PlaybackOutcome
    → ℕ
    → Option ℕ
    → Coordinator
    → Coordinator × Result ResponseError ℕ
unfolding settle_end
end_record i r outcome played_samples last c =
    if r.playback_ended
    then (c, err duplicate_playback_ended)
    else if not (is_object i c.playback)
    then (c, err stale_generation)
    else elim (check_end r outcome played_samples last) [
      | some e ↦ (c, err e)
      | none ↦ settle_end i r c
    ]

unfoldable pub playback_ended :
    Text → ℕ → PlaybackOutcome → ℕ → Option ℕ → Coordinator → Coordinator × Result ResponseError ℕ
unfolding end_record
playback_ended response_id generation outcome played_samples last c =
    elim (find_record response_id generation c) [
      | none ↦ (c, err stale_generation)
      | some (i, r) ↦ end_record i r outcome played_samples last c
    ]
