-- ===== src/Worker/Binding/Responses.antt =====
-- The responses of a binding: its events for them, their cancellation, and the session's errors.
use realtime_voice_agent.Common.{
  ℕ, ◌+◌, Bool, true, false, not, Option, none, some, List, [], ◌∷◌, if◌then◌else◌, nat_eq, Text,
  codes, text_key, nat_key, Result, ok, err, ◌>>=◌, ◌>>◌,
}
use realtime_voice_agent.Common.Dict.{get}
use realtime_voice_agent.Common.Json.{Json, nat, str, bool, obj, Fields, end, field, is_error_code}
use realtime_voice_agent.Worker.Protocol.{
  BindingError, response, require, require_identifier, require_uint32,
}
use realtime_voice_agent.Worker.Response
use realtime_voice_agent.Worker.Response.{
  ResponseRecord, ResponseOutcome, ResponseError, Coordinator, begin, accepts, complete, fence,
  fenced_record, is_object,
}
use realtime_voice_agent.Worker.Binding.{Binding, ensure_open, event}
use realtime_voice_agent.Worker.Binding.Transcripts.{require_text}

-- An end of a playback, as the coordinator reports it.
pub record PlaybackEndedFact : Type 0 where
  pub record_id : ℕ
  pub outcome : Response.PlaybackOutcome
  pub played_samples : ℕ
  pub last_media_sequence : Option ℕ

pub record ControlEffect : Type 0 where
  pub outbound : List Fields
  pub interrupt : Option ℕ
  pub playback_started : Option ℕ
  pub playback_ended : Option PlaybackEndedFact
  pub close_after_send : Bool

abbrev pub no_effect : ControlEffect
no_effect = record {
  outbound = [];
  interrupt = none;
  playback_started = none;
  playback_ended = none;
  close_after_send = false;
}

pub data StopCause : Type 0 where
  explicit_user_request recognized_interrupt session_close response_failed : StopCause

abbrev pub cause_text : StopCause → Text
cause_text explicit_user_request = codes "explicit_user_request"
cause_text recognized_interrupt = codes "recognized_interrupt"
cause_text session_close = codes "session_close"
cause_text response_failed = codes "response_failed"

abbrev pub cause_outcome : StopCause → ResponseOutcome
cause_outcome response_failed = Response.ResponseOutcome.failed
cause_outcome _ = Response.ResponseOutcome.cancelled

abbrev pub cause_error : StopCause → Option Text
cause_error response_failed = some (codes "response_failed")
cause_error _ = none

abbrev pub target_fields : ResponseRecord → Fields
target_fields r =
    field (codes "response_id") (str r.response_id)
      (field (codes "generation") (nat r.target.generation) end)

abbrev pub begin_fields : ResponseRecord → Fields
begin_fields r = target_fields r

abbrev pub text_fields : ResponseRecord → ℕ → Text → Fields
text_fields r sequence text = field (codes "response_id") (str r.response_id) (
    field (codes "generation") (nat r.target.generation)
      (field (codes "sequence") (nat sequence) (field (codes "text") (str text) end)))

abbrev pub completed_fields : ResponseRecord → ℕ → Fields
completed_fields r last = field (codes "response_id") (str r.response_id) (
    field (codes "generation") (nat r.target.generation) (
      field (codes "outcome") (str (codes "completed"))
        (field (codes "final_media_sequence") (nat last) end)))

abbrev pub stop_fields : ResponseRecord → ℕ → StopCause → Fields
stop_fields r fence_generation cause = field (codes "target") (obj (target_fields r)) (
    field (codes "fence_generation") (nat fence_generation)
      (field (codes "cause") (str (cause_text cause)) end))

-- The end of a stopped response: `cancelled`, or `failed` with its code.
abbrev pub stopped_fields : ResponseRecord → StopCause → Fields
stopped_fields r response_failed = field (codes "response_id") (str r.response_id) (
    field (codes "generation") (nat r.target.generation) (
      field (codes "outcome") (str (codes "failed"))
        (field (codes "error_code") (str (codes "response_failed")) end)))
stopped_fields r _ = field (codes "response_id") (str r.response_id) (
    field (codes "generation") (nat r.target.generation)
      (field (codes "outcome") (str (codes "cancelled")) end))

abbrev pub error_fields : Text → Bool → Text → Fields
error_fields error_code retryable message =
    field (codes "code") (str error_code)
      (field (codes "retryable") (bool retryable) (field (codes "message") (str message) end))

abbrev pub is_completed : Option ResponseOutcome → Bool
is_completed (some Response.ResponseOutcome.completed) = true
is_completed _ = false

module _ (encoded_bytes : Json → ℕ) where
  -- With the record made or found. No event for a response that runs already.
  unfoldable pub announce : ℕ → Bool → Binding → Binding × Result BindingError (ℕ × Option Fields)
  announce i created b = if not created then (b, ok (i, none)) else (
    record b { next_response_text_sequence = 0 },
    elim (get i b.responses.objects) [
      | none ↦ ok (i, none)
      | some r ↦ event encoded_bytes (codes "response.begin") (begin_fields r) b >>= λ message.
          ok (i, some message)
    ],
  )

  unfoldable pub response_begin :
      Text → ℕ → Binding → Binding × Result BindingError (ℕ × Option Fields)
  response_begin response_id producer_epoch b = elim (ensure_open b) [
    | some e ↦ (b, err e)
    | none ↦ elim (require_identifier (str response_id) (codes "response_id")) [
      | err e ↦ (b, err e)
      | ok response_id ↦ elim (begin response_id producer_epoch b.responses).1 [
        | err e ↦ (
          record b { responses = (begin response_id producer_epoch b.responses).0 },
          err (response e),
        )
        | ok (i, created) ↦
            announce i created
              (record b { responses = (begin response_id producer_epoch b.responses).0 })
      ]
    ]
  ]

  unfoldable pub check_response_text :
      ℕ → ResponseRecord → ℕ → Text → Binding → Result BindingError (Unit {0})
  check_response_text i r sequence text b =
      require (accepts i r b.responses) (codes "stale_generation")
      >> (require_uint32 0 (nat sequence) (codes "sequence") >>= λ sequence.
          require (nat_eq sequence b.next_response_text_sequence) (codes "invalid_sequence")
          >> require_text text 4096 false)

  unfoldable pub response_text :
      ℕ → ResponseRecord → ℕ → Text → Binding → Binding × Result BindingError Fields
  response_text i r sequence text b = elim (ensure_open b) [
    | some e ↦ (b, err e)
    | none ↦ elim (check_response_text i r sequence text b) [
      | err e ↦ (b, err e)
      | ok done ↦ (
        record b { next_response_text_sequence = b.next_response_text_sequence + 1 },
        event encoded_bytes (codes "response.text") (text_fields r sequence text) b,
      )
    ]
  ]

  -- `complete` raises for a record without media, so that the last number is there.
  unfoldable pub response_end : ℕ → ResponseRecord → Binding → Binding × Result BindingError Fields
  response_end i r b = elim (ensure_open b) [
    | some e ↦ (b, err e)
    | none ↦ elim (complete i r b.responses).1 [
      | err e ↦ (record b { responses = (complete i r b.responses).0 }, err (response e))
      | ok done ↦ (
        record b { responses = (complete i r b.responses).0 },
        elim r.last_media_sequence [
          | none ↦ err (response Response.response_has_no_media)
          | some last ↦ event encoded_bytes (codes "response.end") (completed_fields r last) b
        ],
      )
    ]
  ]

  unfoldable pub session_error : Text → Bool → Text → Binding → Result BindingError Fields
  session_error error_code retryable message b = elim (ensure_open b) [
    | some e ↦ err e
    | none ↦
        require (is_error_code error_code) (codes "invalid_error_code")
        >> require_text message 512 true
        >> event encoded_bytes (codes "session.error") (error_fields error_code retryable message) b
  ]

  -- The events of a cancellation: the stop, and the response's end unless it was completed.
  unfoldable pub cancel_events :
      ResponseRecord → ℕ → StopCause → Binding → Result BindingError (List Fields)
  cancel_events r fence_generation cause b =
      event encoded_bytes (codes "playback.stop") (stop_fields r fence_generation cause) b
      >>= λ stop.
          if is_completed r.outcome
          then ok (stop ∷ [])
          else (event encoded_bytes (codes "response.end") (stopped_fields r cause) b >>= λ ended.
              ok (stop ∷ ended ∷ []))

  -- The events are of the record as the fence left it.
  unfoldable pub cancel_record :
      ℕ → ResponseRecord → StopCause → Binding → Binding × Result BindingError ControlEffect
  cancel_record i r cause b =
      let (fenced, result) = fence i r (cause_outcome cause) (cause_error cause) b.responses in
      elim result [
        | err e ↦ (record b { responses = fenced }, err (response e))
        | ok fence_generation ↦ (
          record b { responses = fenced },
          cancel_events
                (fenced_record r (is_object i b.responses.active) (cause_outcome cause)
                  (cause_error cause))
                fence_generation cause b
              >>= λ outbound. ok (record no_effect { outbound = outbound; interrupt = some i }),
        )
      ]

  unfoldable pub cancel_active_response :
      StopCause → Binding → Binding × Result BindingError ControlEffect
  cancel_active_response cause b = elim (ensure_open b) [
    | some e ↦ (b, err e)
    | none ↦ elim b.responses.playback [
      | none ↦ (b, ok no_effect)
      | some i ↦ elim (get i b.responses.objects) [
        | none ↦ (b, ok no_effect)
        | some r ↦ cancel_record i r cause b
      ]
    ]
  ]
