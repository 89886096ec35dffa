-- ===== src/Worker/Binding/Control.antt =====
-- `receive_control`: the messages of the device.
use realtime_voice_agent.Common.{
  ℕ, Bool, true, false, not, ◌&&◌, Option, none, some, List, [], ◌∷◌, ◌++◌, if◌then◌else◌, ltb,
  nat_eq, length, Text, codes, text_key, nat_key, pair_key, ◌==◌, Result, ok, err, ◌>>=◌, ◌>>◌,
}
use realtime_voice_agent.Common.Dict.{get, put, remove}
use realtime_voice_agent.Common.Json.{
  Json, str, Fields, end, field, at, has, has_all, within, as_object, as_text, is_text, is_among,
  is_hashable, is_null,
}
use realtime_voice_agent.Worker.Protocol.{
  BindingError, response, unhashable, fail, require, require_identifier, require_uint32,
  require_bounded, require_exact_fields, Frame, decode_control,
}
use realtime_voice_agent.Worker.Response.{
  PlaybackOutcome, ResponseError, Coordinator, completed, stopped, failed,
}
use realtime_voice_agent.Worker.Response.Playback
use realtime_voice_agent.Worker.Binding.{Binding, ensure_open, event, open_session}
use realtime_voice_agent.Worker.Binding.Transcripts.{require_text}
use realtime_voice_agent.Worker.Binding.Responses.{
  ControlEffect, no_effect, cancel_active_response, explicit_user_request, session_close,
}

-- `_require_context`
unfoldable pub require_context : Fields → Binding → Result BindingError (Unit {0})
require_context m b =
    require
      (is_text b.session_id (at (codes "session_id") m)
        && is_text b.session_epoch (at (codes "session_epoch") m))
      (codes "stale_session")

-- `_parse_target`
unfoldable pub parse_target : Json → Result BindingError (Text × ℕ)
parse_target value = elim (as_object value) [
  | none ↦ fail (codes "invalid_cancel_target")
  | some m ↦
      require_exact_fields (codes "response_id" ∷ codes "generation" ∷ []) m
      >> (require_identifier (at (codes "response_id") m) (codes "response_id") >>= λ response_id.
          require_uint32 1 (at (codes "generation") m) (codes "generation") >>= λ generation.
          ok (response_id, generation))
]

abbrev pub context_and : List Text → List Text
context_and fields = codes "type" ∷ codes "session_id" ∷ codes "session_epoch" ∷ fields

-- Exactly the required fields, or one more.
unfoldable pub require_fields : List Text → Text → Fields → Result BindingError (Unit {0})
require_fields required extra m =
    require (has_all required m) (codes "missing_field")
    >> require (within (required ++ extra ∷ []) m) (codes "unknown_field")

abbrev pub CancelRequest : Type 0
CancelRequest = Text × (Text × ℕ)

unfoldable pub parse_cancel : Fields → Binding → Result BindingError CancelRequest
parse_cancel m b =
    require_exact_fields (context_and (codes "request_id" ∷ codes "target" ∷ codes "cause" ∷ [])) m
    >> require_context m b
    >> (require_identifier (at (codes "request_id") m) (codes "request_id") >>= λ request_id.
        require (is_text (codes "user_request") (at (codes "cause") m))
          (codes "invalid_cancel_cause")
        >> (parse_target (at (codes "target") m) >>= λ target. ok (request_id, target)))

-- `while len(self._cancel_request_order) > 64`, on the queue that is left.
unfoldable pub trim_requests : List Text → Binding → Binding
trim_requests [] b = record b { cancel_request_order = [] }
trim_requests (request_id ∷ rest) b =
    let trimmed =
      trim_requests rest (record b { cancel_requests = remove request_id b.cancel_requests }) in
    if ltb 64 (length (request_id ∷ rest))
    then trimmed
    else record b { cancel_request_order = request_id ∷ rest }

-- `_remember_cancel_request`
unfoldable pub remember_cancel_request : Text → Text × ℕ → Binding → Binding
remember_cancel_request request_id target b =
    trim_requests (b.cancel_request_order ++ request_id ∷ [])
      (record b { cancel_requests = put request_id target b.cancel_requests })

-- `active.response_id == response_id and active.target.generation == generation`
unfoldable pub plays : Text × ℕ → Binding → Bool
plays target b = elim b.responses.playback [
  | none ↦ false
  | some i ↦ elim (get i b.responses.objects) [
    | none ↦ false
    | some r ↦ (r.response_id == target.0) && nat_eq r.target.generation target.1
  ]
]

abbrev pub remember_ok :
    Text
    → Text × ℕ
    → Binding × Result BindingError ControlEffect
    → Binding × Result BindingError ControlEffect
remember_ok request_id target (b, ok effect) =
    (remember_cancel_request request_id target b, ok effect)
remember_ok request_id target (b, err e) = (b, err e)

module _ (encoded_bytes : Json → ℕ) where
  unfoldable pub cancel_parsed :
      CancelRequest → Binding → Binding × Result BindingError ControlEffect
  cancel_parsed (request_id, target) b = elim (get request_id b.cancel_requests) [
    | some previous ↦
        if previous == target then (b, ok no_effect) else (b, fail (codes "request_id_conflict"))
    | none ↦
        if not (plays target b)
        then (b, fail (codes "stale_cancel_target"))
        else remember_ok request_id target
            (cancel_active_response encoded_bytes explicit_user_request b)
  ]

  -- `_cancel`
  unfoldable pub cancel : Fields → Binding → Binding × Result BindingError ControlEffect
  cancel m b = elim (parse_cancel m b) [ err e ↦ (b, err e) | ok request ↦ cancel_parsed request b ]

  unfoldable pub parse_started : Fields → Binding → Result BindingError ((Text × ℕ) × ℕ)
  parse_started m b =
      require_exact_fields (context_and (codes "target" ∷ codes "first_media_sequence" ∷ [])) m
      >> require_context m b
      >> (parse_target (at (codes "target") m) >>= λ target.
          require_uint32 0 (at (codes "first_media_sequence") m) (codes "first_media_sequence")
          >>= λ sequence. ok (target, sequence))

  abbrev started_effect :
      Binding → Coordinator × Result ResponseError ℕ → Binding × Result BindingError ControlEffect
  started_effect b (c, ok i) =
      (record b { responses = c }, ok (record no_effect { playback_started = some i }))
  started_effect b (c, err e) = (record b { responses = c }, err (response e))

  -- `_playback_started`
  unfoldable pub playback_started : Fields → Binding → Binding × Result BindingError ControlEffect
  playback_started m b = elim (parse_started m b) [
    | err e ↦ (b, err e)
    | ok (target, sequence) ↦
        started_effect b (Playback.playback_started target.0 target.1 sequence b.responses)
  ]

  unfoldable pub parse_outcome : Json → Result BindingError PlaybackOutcome
  parse_outcome value =
      if not (is_hashable value)
      then err unhashable
      else if is_text (codes "completed") value
      then ok completed
      else if is_text (codes "stopped") value
      then ok stopped
      else if is_text (codes "failed") value
      then ok failed
      else fail (codes "invalid_playback_outcome")

  -- A missing number is none, and so is a null.
  unfoldable pub parse_last : Json → PlaybackOutcome → Result BindingError (Option ℕ)
  parse_last value outcome =
      if is_null value
      then (if Playback.is_completed outcome then fail (codes "missing_field") else ok none)
      else (require_uint32 0 value (codes "last_media_sequence") >>= λ last. ok (some last))

  pub record EndReport : Type 0 where
    pub target : Text × ℕ
    pub outcome : PlaybackOutcome
    pub played_samples : ℕ
    pub last_media_sequence : Option ℕ

  unfoldable pub parse_ended : Fields → Binding → Result BindingError EndReport
  parse_ended m b =
      require_fields (context_and (codes "target" ∷ codes "outcome" ∷ codes "played_samples" ∷ []))
        (codes "last_media_sequence") m
      >> require_context m b
      >> (parse_target (at (codes "target") m) >>= λ target.
          parse_outcome (at (codes "outcome") m) >>= λ outcome.
          require_bounded 0 9007199254740991 (at (codes "played_samples") m)
            (codes "played_samples")
          >>= λ played_samples. parse_last (at (codes "last_media_sequence") m) outcome >>= λ last.
              ok (record {
                target = target;
                outcome = outcome;
                played_samples = played_samples;
                last_media_sequence = last;
              }))

  abbrev ended_effect :
      EndReport
      → Binding
      → Coordinator × Result ResponseError ℕ
      → Binding × Result BindingError ControlEffect
  ended_effect f b (c, ok i) = (
    record b { responses = c },
    ok (record no_effect {
      playback_ended = some (record {
        record_id = i;
        outcome = f.outcome;
        played_samples = f.played_samples;
        last_media_sequence = f.last_media_sequence;
      });
    }),
  )
  ended_effect f b (c, err e) = (record b { responses = c }, err (response e))

  -- `_playback_ended`
  unfoldable pub playback_ended : Fields → Binding → Binding × Result BindingError ControlEffect
  playback_ended m b = elim (parse_ended m b) [
    | err e ↦ (b, err e)
    | ok f ↦ ended_effect f b (
        Playback.playback_ended f.target.0 f.target.1 f.outcome f.played_samples
          f.last_media_sequence b.responses)
  ]

  abbrev device_reasons : List Text
  device_reasons =
      codes "normal" ∷ codes "idle_timeout" ∷ codes "network_change" ∷ codes "protocol_error" ∷ []

  abbrev close_detail : Fields → Result BindingError (Unit {0})
  close_detail m =
      if not (has (codes "detail") m) then ok tt else elim (as_text (at (codes "detail") m)) [
        | none ↦ fail (codes "invalid_text")
        | some t ↦ require_text t 256 true
      ]

  -- The reason of the device's close, which goes back in the Worker's.
  unfoldable pub parse_close : Fields → Binding → Result BindingError Json
  parse_close m b =
      require_fields (context_and (codes "reason" ∷ codes "initiated_by" ∷ [])) (codes "detail") m
      >> require_context m b
      >> require (is_text (codes "device") (at (codes "initiated_by") m))
          (codes "invalid_close_initiator")
      >> (if not (is_hashable (at (codes "reason") m))
          then err unhashable
          else require (is_among device_reasons (at (codes "reason") m))
              (codes "invalid_close_reason"))
      >> close_detail m
      >> ok (at (codes "reason") m)

  abbrev pub close_fields : Json → Fields
  close_fields reason =
      field (codes "reason") reason (field (codes "initiated_by") (str (codes "server")) end)

  abbrev and_close :
      Json
      → Binding × Result BindingError ControlEffect
      → Binding × Result BindingError ControlEffect
  and_close reason (b, err e) = (b, err e)
  and_close reason (b, ok effect) = (
    b,
    event encoded_bytes (codes "session.close") (close_fields reason) b >>= λ message.
        ok (record effect { outbound = effect.outbound ++ message ∷ []; close_after_send = true }),
  )

  -- `_receive_close`
  unfoldable pub receive_close : Fields → Binding → Binding × Result BindingError ControlEffect
  receive_close m b = elim (parse_close m b) [
    | err e ↦ (b, err e)
    | ok reason ↦ and_close reason (cancel_active_response encoded_bytes session_close b)
  ]

  abbrev pub opened_effect :
      Binding × Result BindingError Fields → Binding × Result BindingError ControlEffect
  opened_effect (b, err e) = (b, err e)
  opened_effect (b, ok message) = (b, ok (record no_effect { outbound = message ∷ [] }))

  -- The messages that an open session takes.
  unfoldable pub receive_open : Fields → Binding → Binding × Result BindingError ControlEffect
  receive_open m b =
      if is_text (codes "response.cancel.request") (at (codes "type") m)
      then cancel m b
      else if is_text (codes "playback.started") (at (codes "type") m)
      then playback_started m b
      else if is_text (codes "playback.ended") (at (codes "type") m)
      then playback_ended m b
      else if is_text (codes "session.close") (at (codes "type") m)
      then receive_close m b
      else (b, fail (codes "unknown_client_message"))

  unfoldable pub receive_message : Fields → Binding → Binding × Result BindingError ControlEffect
  receive_message m b =
      if is_text (codes "session.open") (at (codes "type") m)
      then opened_effect (open_session encoded_bytes m b)
      else elim (ensure_open b) [ some e ↦ (b, err e) | none ↦ receive_open m b ]

  unfoldable pub receive_control : Frame → Binding → Binding × Result BindingError ControlEffect
  receive_control f b = elim (decode_control f) [ err e ↦ (b, err e) | ok m ↦ receive_message m b ]
