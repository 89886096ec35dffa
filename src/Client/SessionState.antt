-- ===== src/Client/SessionState.antt =====
-- session/state.py, `SessionState`: the client's view of the RVA session. Messages are those that
-- `validate_server_message` has passed, as data. A `_Playback` is changed in place where it stands,
-- among the current ones or the tombstones.
pub mod Control
pub mod MediaGate
pub mod Playout
pub mod Progress
pub mod Guarantees
use realtime_voice_agent.Common.{
  ℕ, ◌+◌, Bool, true, false, not, ◌&&◌, ◌||◌, Option, none, some, List, [], ◌∷◌, ◌++◌, length, take,
  drop, leb, ltb, nat_eq, if◌then◌else◌, filter, Text, text_key, nat_key, ◌==◌, Result, ok, err,
  is_some, contains,
}
use realtime_voice_agent.Common.Dict.{Dict, get, put, remove}

pub record PlaybackTarget : Type 0 where
  pub response_id : Text
  pub generation : ℕ

abbrev pub target_eq : PlaybackTarget → PlaybackTarget → Bool
target_eq p q = (p.response_id == q.response_id) && (p.generation == q.generation)

pub data ResponseOutcome : Type 0 where
  completed cancelled failed : ResponseOutcome

pub record Playback : Type 0 where
  pub target : PlaybackTarget
  pub started : Bool
  pub ended : Bool
  pub stopped : Bool
  pub final_media_sequence : Option ℕ
  pub response_terminal : Bool
  pub stop_fence : Option ℕ
  pub stop_cause : Option Text
  pub first_media_sequence : Option ℕ
  pub last_media_sequence : Option ℕ

unfoldable pub new_playback : PlaybackTarget → Playback
new_playback target = record {
  target = target;
  started = false;
  ended = false;
  stopped = false;
  final_media_sequence = none;
  response_terminal = false;
  stop_fence = none;
  stop_cause = none;
  first_media_sequence = none;
  last_media_sequence = none;
}

-- The fields of `SessionOpened` that the state reads; `over_wss`: the profile is `wss-opus/1`.
pub record SessionOpened : Type 0 where
  pub session_id : Text
  pub session_epoch : Text
  pub over_wss : Bool
  pub media_id : Text
  pub media_epoch : ℕ

-- `SessionClosed` and the codes of `ProtocolError`
pub data ClientError : Type 0 where
  session_closed duplicate_session_opened stale_session transcript_already_final : ClientError
  invalid_sequence stale_generation playback_already_active response_target_mismatch : ClientError
  playback_target_mismatch response_already_terminal playback_already_ended : ClientError
  playback_stop_conflict invalid_media_sequence stale_media_identity : ClientError
  invalid_media_flags unknown_media_generation invalid_media_timestamp : ClientError
  playback_already_started playback_evidence_mismatch invalid_played_samples : ClientError
  invalid_first_media_sequence invalid_last_media_sequence invalid_close_detail : ClientError

-- The tombstones stand newest first, the final transcripts oldest first.
pub record State : Type 0 where
  pub opened : SessionOpened
  pub closed : Bool
  pub fence_generation : ℕ
  pub highest_generation : ℕ
  pub current_playback : Option PlaybackTarget
  pub playbacks : Dict ℕ Playback
  pub playback_tombstones : List Playback
  pub transcript_sequences : Dict Text ℕ
  pub final_transcripts : List Text
  pub final_transcript_order : List Text
  pub response_text_sequence : Dict ℕ ℕ
  pub last_media_timestamp : Dict ℕ ℕ
  pub next_downlink_sequence : ℕ

abbrev pub tombstone_limit : ℕ
tombstone_limit = 64

unfoldable pub init : SessionOpened → State
init opened = record {
  opened = opened;
  closed = false;
  fence_generation = 1;
  highest_generation = 0;
  current_playback = none;
  playbacks = [];
  playback_tombstones = [];
  transcript_sequences = [];
  final_transcripts = [];
  final_transcript_order = [];
  response_text_sequence = [];
  last_media_timestamp = [];
  next_downlink_sequence = if opened.over_wss then 0 else 1;
}

unfoldable pub find_tombstone : ℕ → List Playback → Option Playback
find_tombstone generation [] = none
find_tombstone generation (p ∷ ps) =
    if p.target.generation == generation then some p else find_tombstone generation ps

unfoldable pub find_playback : ℕ → State → Option Playback
find_playback generation s = elim (get generation s.playbacks) [
  | some p ↦ some p
  | none ↦ find_tombstone generation s.playback_tombstones
]

-- What a mutation of the object that `find_tombstone` returned leaves in the deque.
unfoldable pub write_tombstone : Playback → List Playback → List Playback
write_tombstone p [] = []
write_tombstone p (q ∷ qs) =
    if q.target.generation == p.target.generation then p ∷ qs else q ∷ write_tombstone p qs

-- What a mutation of the object that `find_playback` returned leaves.
unfoldable pub write_playback : Playback → State → State
write_playback p s = elim (get p.target.generation s.playbacks) [
  | some q ↦ record s { playbacks = put p.target.generation p s.playbacks }
  | none ↦ record s { playback_tombstones = write_tombstone p s.playback_tombstones }
]

unfoldable pub require_known : PlaybackTarget → State → Result ClientError Playback
require_known target s = elim (find_playback target.generation s) [
  | none ↦ err playback_target_mismatch
  | some p ↦ if target_eq p.target target then ok p else err playback_target_mismatch
]

-- `target == self.current_playback`
abbrev pub is_current : PlaybackTarget → State → Bool
is_current target s = elim s.current_playback [ none ↦ false | some q ↦ target_eq target q ]

unfoldable pub require_current : PlaybackTarget → State → Result ClientError Playback
require_current target s =
    if is_current target s then require_known target s else err response_target_mismatch

abbrev or_zero : Option ℕ → ℕ
or_zero none = 0
or_zero (some n) = n

-- `_advance_sequence`, on the number that a ledger has for the scope; `none` is `invalid_sequence`.
unfoldable pub advance_sequence : Option ℕ → ℕ → Option ℕ
advance_sequence ledger sequence =
    if nat_eq sequence (or_zero ledger) then some (or_zero ledger + 1) else none

unfoldable pub remember_final_transcript : Text → State → State
remember_final_transcript utterance_id s = elim s.final_transcript_order [
  | [] ↦ record s {
    final_transcript_order = utterance_id ∷ [];
    final_transcripts = utterance_id ∷ s.final_transcripts;
  }
  | expired ∷ rest ↦
      if leb tombstone_limit (length s.final_transcript_order)
      then record s {
        final_transcript_order = rest ++ utterance_id ∷ [];
        final_transcripts = utterance_id ∷ filter (λ u. not (u == expired)) s.final_transcripts;
      }
      else record s {
        final_transcript_order = s.final_transcript_order ++ utterance_id ∷ [];
        final_transcripts = utterance_id ∷ s.final_transcripts;
      }
]
