-- ===== src/Client/AudioQueue.antt =====
-- audio/queue.py, `BoundedAudioQueue`. Every method holds the condition's lock but while it waits; a call
-- is one turn of its task: it waits, raises, or returns.
pub mod Order
use realtime_voice_agent.Common.{
  ℕ, suc, ◌+◌, Bool, true, false, not, ◌&&◌, ◌||◌, if◌then◌else◌, ltb, leb, nat_eq, List, [], ◌∷◌,
  ◌++◌, length, is_empty, Option, none, some,
}

pub data QueueError : Type 0 where
  capacity_must_be_positive audio_queue_closed task_done_too_many : QueueError

pub data Turn {ℓ} (A : Type ℓ) : Type ℓ where
  waits : Turn A
  raises : QueueError → Turn A
  returns : A → Turn A

-- `_unfinished` is the integer `added - removed`: a close that discards may take it below zero.
pub record Queue {ℓ} (T : Type ℓ) : Type ℓ where
  pub capacity : ℕ
  pub items : List T
  pub closed : Bool
  pub added : ℕ
  pub removed : ℕ

module _ {ℓ} {T : Type ℓ} where
  -- `none` is the `ValueError`.
  unfoldable pub init : ℕ → Option (Queue T)
  init capacity =
      if nat_eq capacity 0
      then none
      else some (record { capacity = capacity; items = []; closed = false; added = 0; removed = 0 })

  unfoldable pub put : T → Queue T → Queue T × Turn (Unit {0})
  put item q =
      if not (q.closed || ltb (length q.items) q.capacity)
      then (q, waits)
      else if q.closed
      then (q, raises audio_queue_closed)
      else (record q { items = q.items ++ item ∷ []; added = suc q.added }, returns tt)

  unfoldable pub get : Queue T → Queue T × Turn T
  get q = elim q.items [
    | [] ↦ if q.closed then (q, raises audio_queue_closed) else (q, waits)
    | item ∷ rest ↦ (record q { items = rest }, returns item)
  ]

  unfoldable pub task_done : Queue T → Queue T × Turn (Unit {0})
  task_done q =
      if leb q.added q.removed
      then (q, raises task_done_too_many)
      else (record q { removed = suc q.removed }, returns tt)

  unfoldable pub join : Queue T → Turn (Unit {0})
  join q = if nat_eq q.added q.removed then returns tt else waits

  unfoldable pub close : Bool → Queue T → Queue T
  close discard_pending q =
      if discard_pending
      then record q { items = []; removed = q.removed + length q.items; closed = true }
      else record q { closed = true }
