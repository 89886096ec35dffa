-- ===== src/Client/SessionState/Control.antt =====
-- `accept_control`: one function for each kind of message.
use realtime_voice_agent.Common.{
  ℕ, Bool, true, false, not, ◌&&◌, ◌||◌, Option, none, some, leb, ltb, nat_eq, if◌then◌else◌, Text,
  text_key, nat_key, ◌==◌, option_eq, Result, ok, err, is_some, contains,
}
use realtime_voice_agent.Common.Dict.{get, put, remove}
use realtime_voice_agent.Client.SessionState.{
  PlaybackTarget, Playback, State, ResponseOutcome, completed, cancelled, failed, ClientError,
  session_closed, duplicate_session_opened, stale_session, transcript_already_final,
  invalid_sequence, stale_generation, playback_already_active, response_already_terminal,
  playback_already_ended, playback_stop_conflict, new_playback, require_known, require_current,
  write_playback, advance_sequence, remember_final_transcript,
}

-- The kinds of server messages, with the fields that the state reads.
pub data Body : Type 0 where
  session_opened session_error session_close : Body
  transcript_delta transcript_final : Text → ℕ → Body
  response_begin : PlaybackTarget → Body
  response_text : PlaybackTarget → ℕ → Body
  response_end : PlaybackTarget → ResponseOutcome → ℕ → Body
  playback_stop : PlaybackTarget → ℕ → Text → Body

pub record Message : Type 0 where
  pub session_id : Text
  pub session_epoch : Text
  pub body : Body

-- The message is the event's own copy.
pub record SessionEvent : Type 0 where
  pub message : Body
  pub target : Option PlaybackTarget

abbrev pub Reply : Type 0
Reply = State × Result ClientError (Option SessionEvent)

abbrev event : Body → Option PlaybackTarget → Result ClientError (Option SessionEvent)
event body target = ok (some (record { message = body; target = target }))

unfoldable pub accept_transcript : Text → ℕ → Bool → State → Reply
accept_transcript utterance_id sequence final s =
    if contains s.final_transcripts utterance_id
    then (s, err transcript_already_final)
    else elim (advance_sequence (get utterance_id s.transcript_sequences) sequence) [
      | none ↦ (s, err invalid_sequence)
      | some next ↦
          if final
          then (
            record (remember_final_transcript utterance_id s) {
              transcript_sequences =
                  remove utterance_id (put utterance_id next s.transcript_sequences);
            },
            event (transcript_final utterance_id sequence) none,
          )
          else (
            record s { transcript_sequences = put utterance_id next s.transcript_sequences },
            event (transcript_delta utterance_id sequence) none,
          )
    ]

unfoldable pub accept_begin : PlaybackTarget → State → Reply
accept_begin target s =
    if leb target.generation s.highest_generation || ltb target.generation s.fence_generation
    then (s, err stale_generation)
    else if is_some s.current_playback
    then (s, err playback_already_active)
    else (
      record s {
        highest_generation = target.generation;
        current_playback = some target;
        playbacks = put target.generation (new_playback target) s.playbacks;
        response_text_sequence = put target.generation 0 s.response_text_sequence;
      },
      event (response_begin target) (some target),
    )

unfoldable pub accept_text : PlaybackTarget → ℕ → State → Reply
accept_text target sequence s = elim (require_current target s) [
  | err e ↦ (s, err e)
  | ok p ↦ elim (advance_sequence (get target.generation s.response_text_sequence) sequence) [
    | none ↦ (s, err invalid_sequence)
    | some next ↦ (
      record s { response_text_sequence = put target.generation next s.response_text_sequence },
      event (response_text target sequence) (some target),
    )
  ]
]

-- `final` is read only if the outcome is `completed`: the message has it only then.
unfoldable pub terminal : Playback → ResponseOutcome → ℕ → Playback
terminal p completed final = record p {
  final_media_sequence = some final;
  response_terminal = true;
}
terminal p cancelled final = record p { response_terminal = true }
terminal p failed final = record p { response_terminal = true }

unfoldable pub accept_end : PlaybackTarget → ResponseOutcome → ℕ → State → Reply
accept_end target outcome final s = elim (require_known target s) [
  | err e ↦ (s, err e)
  | ok p ↦ if p.response_terminal then (s, err response_already_terminal) else (
    write_playback (terminal p outcome final) s,
    event (response_end target outcome final) (some target),
  )
]

-- A stop of the playback for the first time.
unfoldable pub apply_stop : Playback → PlaybackTarget → ℕ → Text → State → Reply
apply_stop p target fence cause s =
    if leb fence target.generation || leb fence s.fence_generation
    then (s, err stale_generation)
    else (
      write_playback (record p { stopped = true; stop_fence = some fence; stop_cause = some cause })
          (record s { fence_generation = fence }),
      event (playback_stop target fence cause) (some target),
    )

-- The same stop again is no event and no error.
unfoldable pub accept_stop : PlaybackTarget → ℕ → Text → State → Reply
accept_stop target fence cause s = elim (require_known target s) [
  | err e ↦ (s, err e)
  | ok p ↦ if p.ended then (s, err playback_already_ended) else elim p.stop_fence [
    | none ↦ apply_stop p target fence cause s
    | some f ↦
        if nat_eq f fence && option_eq p.stop_cause (some cause)
        then (s, ok none)
        else (s, err playback_stop_conflict)
  ]
]

unfoldable pub accept_body : Body → State → Reply
accept_body session_opened s = (s, err duplicate_session_opened)
accept_body session_error s = (s, event session_error none)
accept_body session_close s = (record s { closed = true }, event session_close none)
accept_body (transcript_delta utterance_id n) s = accept_transcript utterance_id n false s
accept_body (transcript_final utterance_id n) s = accept_transcript utterance_id n true s
accept_body (response_begin target) s = accept_begin target s
accept_body (response_text target n) s = accept_text target n s
accept_body (response_end target outcome final) s = accept_end target outcome final s
accept_body (playback_stop target fence cause) s = accept_stop target fence cause s

abbrev pub is_opened : Body → Bool
is_opened session_opened = true
is_opened session_error = false
is_opened session_close = false
is_opened (transcript_delta u n) = false
is_opened (transcript_final u n) = false
is_opened (response_begin t) = false
is_opened (response_text t n) = false
is_opened (response_end t o n) = false
is_opened (playback_stop t f c) = false

-- `_identity`
abbrev pub same_session : Message → State → Bool
same_session m s =
    (m.session_id == s.opened.session_id) && (m.session_epoch == s.opened.session_epoch)

unfoldable pub accept_control : Message → State → Reply
accept_control m s =
    if s.closed
    then (s, err session_closed)
    else if is_opened m.body
    then (s, err duplicate_session_opened)
    else if not (same_session m s)
    then (s, err stale_session)
    else accept_body m.body s
