-- ===== src/Worker/Response.antt =====
-- realtime_worker/bindings/rva/response.py, `ResponseCoordinator`. A `ResponseRecord` is shared
-- between `_active`, `_playback`, `_records` and the callers, and compared by `is`: records live in a
-- store by identity, and the coordinator holds identities.
pub mod Playback
pub mod Phases
pub mod Views
pub mod Outcomes
pub mod Coherence
pub mod Lifecycle
pub mod Guarantees
pub mod Progress
use realtime_voice_agent.Common.{
  ℕ, suc, ◌+◌, ◌≡◌, ◌↔◌, Bool, true, false, not, ◌&&◌, ◌||◌, Option, none, some, List, [], ◌∷◌,
  ◌++◌, length, ltb, leb, nat_eq, option_eq, if◌then◌else◌, Text, text_key, nat_key, ◌==◌, Eq,
  eq_iff, is_some, arith, Result, ok, err,
}
use realtime_voice_agent.Common.Dict.{Dict, get, put, remove}
use realtime_voice_agent.Worker.VoiceSession.{
  Session, SessionError, PlaybackRef, CancelDisposition, applied, begin_playback, accepts_callback,
  cancel_playback, finish_playback, close_state,
}

pub data ResponseOutcome : Type 0 where
  completed cancelled failed : ResponseOutcome

pub data PlaybackOutcome : Type 0 where
  completed stopped failed : PlaybackOutcome

-- The codes of `RvaBindingError`, and what `begin_playback` raises.
pub data ResponseError : Type 0 where
  response_already_active playback_already_active stale_generation response_has_no_media :
      ResponseError
  duplicate_playback_started duplicate_playback_ended invalid_playback_sequence : ResponseError
  invalid_playback_outcome playback_evidence_mismatch : ResponseError
  session_error : SessionError → ResponseError

pub record ResponseRecord : Type 0 where
  pub response_id : Text
  pub target : PlaybackRef
  pub producer_epoch : ℕ
  pub first_media_sequence : Option ℕ
  pub last_media_sequence : Option ℕ
  pub outcome : Option ResponseOutcome
  pub error_code : Option Text
  pub stop_sent : Bool
  pub playback_started : Bool
  pub playback_ended : Bool

-- (response_id, generation)
abbrev pub ResponseKey : Type 0
ResponseKey = Text × ℕ

abbrev pub response_key_eq : ResponseKey → ResponseKey → Bool
response_key_eq p q = (p.0 == q.0) && (p.1 == q.1)

pub response_key_eq_iff : (p q : ResponseKey) → (response_key_eq p q ≡ true) ↔ (p ≡ q)
response_key_eq_iff (a, b) (c, d) = ground (arith, eq_iff a c, eq_iff b d)

instance abbrev pub response_key : Eq ResponseKey
response_key = record { test = response_key_eq; test_iff = response_key_eq_iff }

pub record Coordinator : Type 0 where
  pub session : Session
  pub objects : Dict ℕ ResponseRecord
  pub next_object : ℕ
  pub active : Option ℕ
  pub playback : Option ℕ
  pub records : Dict ResponseKey ℕ
  pub terminal_order : List ResponseKey

-- `record is self._active` and the like.
abbrev pub is_object : ℕ → Option ℕ → Bool
is_object i none = false
is_object i (some j) = nat_eq i j

-- A method takes a record as its identity `i` and its present fields `r`: `get i c.objects ≡ some r`.
-- Identities are handed out by `begin` and never freed.
unfoldable pub write : ℕ → ResponseRecord → Coordinator → Coordinator
write i r c = record c { objects = put i r c.objects }

-- `ResponseRecord(response_id, target, producer_epoch)`
unfoldable pub new_record : Text → PlaybackRef → ℕ → ResponseRecord
new_record response_id target producer_epoch = record {
  response_id = response_id;
  target = target;
  producer_epoch = producer_epoch;
  first_media_sequence = none;
  last_media_sequence = none;
  outcome = none;
  error_code = none;
  stop_sent = false;
  playback_started = false;
  playback_ended = false;
}

unfoldable pub begin_new : Text → ℕ → Coordinator → Coordinator × Result ResponseError (ℕ × Bool)
begin_new response_id producer_epoch c =
    let (session, started) = begin_playback c.session in
    elim started [
      | err e ↦ (record c { session = session }, err (session_error e))
      | ok target ↦
          let i = c.next_object in
          (
            record c {
              session = session;
              objects = put i (new_record response_id target producer_epoch) c.objects;
              next_object = suc i;
              active = some i;
              playback = some i;
              records = put (response_id, target.generation) i c.records;
            },
            ok (i, true),
          )
    ]

abbrev same_producer : ℕ → Option ResponseRecord → Bool
same_producer producer_epoch none = false
same_producer producer_epoch (some r) = nat_eq r.producer_epoch producer_epoch

-- The identity of the response, and whether it is a new one.
unfoldable pub begin : Text → ℕ → Coordinator → Coordinator × Result ResponseError (ℕ × Bool)
unfolding begin_new
begin response_id producer_epoch c = elim c.active [
  | some i ↦
      if same_producer producer_epoch (get i c.objects)
      then (c, ok (i, false))
      else (c, err response_already_active)
  | none ↦
      if is_some c.playback
      then (c, err ResponseError.playback_already_active)
      else begin_new response_id producer_epoch c
]

unfoldable pub accepts : ℕ → ResponseRecord → Coordinator → Bool
accepts i r c = is_object i c.active && accepts_callback r.target c.session

unfoldable pub note_media :
    ℕ → ResponseRecord → ℕ → Coordinator → Coordinator × Result ResponseError (Unit {0})
note_media i r sequence c = if not (accepts i r c) then (c, err stale_generation) else (
  write i
      (record r {
        first_media_sequence =
            if is_some r.first_media_sequence then r.first_media_sequence else some sequence;
        last_media_sequence = some sequence;
      })
      c,
  ok tt,
)

-- `self._records.pop(old, None)` if the record has ended.
unfoldable pub forget : ResponseKey → Coordinator → Coordinator
forget key c = elim (get key c.records) [
  | none ↦ c
  | some i ↦ elim (get i c.objects) [
    | none ↦ c
    | some r ↦ if r.playback_ended then record c { records = remove key c.records } else c
  ]
]

-- `while len(self._terminal_order) > 32: ... popleft() ...`, on the queue that is left.
unfoldable pub trim_terminal : List ResponseKey → Coordinator → Coordinator
trim_terminal [] c = record c { terminal_order = [] }
trim_terminal (key ∷ rest) c =
    let trimmed = trim_terminal rest (forget key c) in
    if ltb 32 (length (key ∷ rest)) then trimmed else record c { terminal_order = key ∷ rest }

unfoldable pub remember_terminal : ResponseRecord → Coordinator → Coordinator
remember_terminal r c =
    trim_terminal (c.terminal_order ++ (r.response_id, r.target.generation) ∷ []) c

unfoldable pub complete :
    ℕ → ResponseRecord → Coordinator → Coordinator × Result ResponseError (Unit {0})
complete i r c =
    if not (is_some r.first_media_sequence && is_some r.last_media_sequence)
    then (c, err response_has_no_media)
    else if not (is_object i c.active && is_object i c.playback)
    then (c, err stale_generation)
    else let r' = record r { outcome = some ResponseOutcome.completed } in
      (remember_terminal r' (record (write i r' c) { active = none }), ok tt)

-- The record as `fence` leaves it: with an outcome only if its response was still active.
unfoldable pub fenced_record :
    ResponseRecord → Bool → ResponseOutcome → Option Text → ResponseRecord
fenced_record r was_active outcome error_code =
    if was_active
    then record r { outcome = some outcome; error_code = error_code; stop_sent = true }
    else record r { stop_sent = true }

abbrev pub is_applied : CancelDisposition → Bool
is_applied applied = true
is_applied _ = false

-- The result is the fence generation.
unfoldable pub fence :
    ℕ
    → ResponseRecord
    → ResponseOutcome
    → Option Text
    → Coordinator
    → Coordinator × Result ResponseError ℕ
fence i r outcome error_code c =
    if not (is_object i c.playback) || r.stop_sent
    then (c, err stale_generation)
    else let (session, disposition) = cancel_playback r.target c.session in
      if not (is_applied disposition)
      then (record c { session = session }, err stale_generation)
      else let r' = fenced_record r (is_object i c.active) outcome error_code in
        (
          remember_terminal r' (record (write i r' c) {
            session = session;
            active = if is_object i c.active then none else c.active;
          }),
          ok session.generation,
        )

unfoldable pub close : Coordinator → Coordinator
close c = record c { session = close_state c.session }
