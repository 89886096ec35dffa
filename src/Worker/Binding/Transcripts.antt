-- ===== src/Worker/Binding/Transcripts.antt =====
-- The transcript events of a binding.
use realtime_voice_agent.Common.{
  ℕ, ◌+◌, Bool, true, false, not, ◌&&◌, ◌||◌, none, some, if◌then◌else◌, ltb, nat_eq, length,
  is_empty, option_eq, Text, codes, text_key, Result, ok, err, is_some, ◌>>=◌, ◌>>◌,
}
use realtime_voice_agent.Common.Json.{Json, nat, str, Fields, end, field}
use realtime_voice_agent.Worker.Protocol.{BindingError, fail, require_identifier, require_uint32}
use realtime_voice_agent.Worker.Binding.{Binding, ensure_open, event}

-- `_require_text`
unfoldable pub require_text : Text → ℕ → Bool → Result BindingError (Unit {0})
require_text text maximum_bytes allow_empty =
    if not allow_empty && is_empty text
    then fail (codes "invalid_text")
    else if ltb maximum_bytes (length text)
    then fail (codes "text_too_large")
    else ok tt

-- A first fragment makes its utterance the active one.
unfoldable pub start_utterance : Text → Binding → Binding
start_utterance utterance_id b =
    if is_some b.active_utterance_id
    then b
    else record b { active_utterance_id = some utterance_id; next_transcript_sequence = 0 }

unfoldable pub count_fragment : Text → Bool → Binding → Binding
count_fragment utterance_id final b =
    if final
    then record b {
      last_finalized_utterance = some utterance_id;
      active_utterance_id = none;
      next_transcript_sequence = 0;
    }
    else record b { next_transcript_sequence = b.next_transcript_sequence + 1 }

-- `_advance_transcript`
unfoldable pub advance_transcript :
    Text → ℕ → Bool → Binding → Binding × Result BindingError (Unit {0})
advance_transcript utterance_id sequence final b =
    if option_eq b.last_finalized_utterance (some utterance_id)
    then (b, fail (codes "transcript_already_final"))
    else if not (is_some b.active_utterance_id) && not (nat_eq sequence 0)
    then (b, fail (codes "invalid_sequence"))
    else let s = start_utterance utterance_id b in
      if not (option_eq s.active_utterance_id (some utterance_id))
        || not (nat_eq sequence s.next_transcript_sequence)
      then (s, fail (codes "invalid_sequence"))
      else (count_fragment utterance_id final s, ok tt)

abbrev pub transcript_fields : Text → ℕ → Text → Fields
transcript_fields utterance_id sequence text =
    field (codes "utterance_id") (str utterance_id)
      (field (codes "sequence") (nat sequence) (field (codes "text") (str text) end))

abbrev pub transcript_type : Bool → Text
transcript_type true = codes "transcript.final"
transcript_type false = codes "transcript.delta"

abbrev pub transcript_bytes : Bool → ℕ
transcript_bytes true = 16384
transcript_bytes false = 4096

-- The tests of the arguments.
unfoldable pub check_transcript : Text → ℕ → Text → Bool → Result BindingError (Unit {0})
check_transcript utterance_id sequence text final =
    require_identifier (str utterance_id) (codes "utterance_id") >>= λ _.
    require_uint32 0 (nat sequence) (codes "sequence") >>= λ _.
    require_text text (transcript_bytes final) final

module _ (encoded_bytes : Json → ℕ) where
  -- `transcript_delta` and `transcript_final`
  unfoldable pub transcript :
      Bool → Text → ℕ → Text → Binding → Binding × Result BindingError Fields
  transcript final utterance_id sequence text b = elim (ensure_open b) [
    | some e ↦ (b, err e)
    | none ↦ elim (check_transcript utterance_id sequence text final) [
      | err e ↦ (b, err e)
      | ok done ↦
          let (advanced, result) = advance_transcript utterance_id sequence final b in
          (
            advanced,
            result
                >> event encoded_bytes (transcript_type final)
                    (transcript_fields utterance_id sequence text) advanced,
          )
    ]
  ]
