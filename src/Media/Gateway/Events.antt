-- ===== src/Media/Gateway/Events.antt =====
-- The session's queue, its worker task, its two timers and its closing.
use realtime_voice_agent.Common.{
  ℕ, ◌+◌, Bool, true, false, ◌&&◌, ◌||◌, not, none, some, List, [], ◌∷◌, ◌++◌, length, Text,
  if◌then◌else◌, ltb, leb, ok, err,
}
use realtime_voice_agent.Media.Gateway.{
  Cipher, Session, Address, Timer, no_timer, pending, ended, grant_expired, count_dropped,
}
use realtime_voice_agent.Media.Gateway.Send.{send_audio}
use realtime_voice_agent.Media.Gateway.Handle.{Handled, Moment, handle}
use realtime_voice_agent.Media.Gateway.Reorder.{expire_reorder_gap}

-- `asyncio.Queue(maxsize)` is unbounded for a size of 0.
abbrev pub is_full : Session → Bool
is_full s = ltb 0 s.queue_size && leb s.queue_size (length s.queue)

-- A full queue drops its oldest datagram; the end marker goes back in.
unfoldable pub push_dropping : Text → Address → Session → Session
push_dropping datagram addr s = elim s.queue [
  | [] ↦ count_dropped 1 s
  | none ∷ rest ↦ record (count_dropped 1 s) { queue = rest ++ (none ∷ []) }
  | some d ∷ rest ↦ record (count_dropped 1 s) { queue = rest ++ (some (datagram, addr) ∷ []) }
]

abbrev pub count_received : Session → Session
count_received s = record s {
  stats = record s.stats {
    received = s.stats.received + 1;
    media_identity_matched = s.stats.media_identity_matched + 1;
  };
}

unfoldable pub enqueue : Text → Address → Session → Session
enqueue datagram addr s =
    if s.closed
    then s
    else if is_full s
    then push_dropping datagram addr (count_received s)
    else record (count_received s) { queue = s.queue ++ (some (datagram, addr) ∷ []) }

-- What `_run` does with how `_handle` ended: the loop goes on, or the failure is reported and the task
-- is over.
abbrev pub after_handle : Handled → Session
after_handle (s, ok done) = s
after_handle (s, err e) = record s { running = false; failures = e ∷ s.failures }

-- A cancelled timer does not fire, but is not forgotten.
abbrev pub cancel : Timer → Timer
cancel no_timer = no_timer
cancel pending = ended
cancel ended = ended

-- The end of the grant's lifetime. The gateway also forgets the session.
unfoldable pub expire : Session → Session
expire s = if s.closed || s.expired then s else record s {
  expired = true;
  running = false;
  reorder_timer = cancel s.reorder_timer;
  failures = grant_expired ∷ s.failures;
}

-- The end marker is put in if there is room.
unfoldable pub close : Session → Session
close s = if s.closed then s else record s {
  closed = true;
  running = false;
  queue = if is_full s then s.queue else s.queue ++ (none ∷ []);
  reorder_timer = cancel s.reorder_timer;
}

pub data Event : Type 0 where
  -- A datagram comes from the gateway; the worker task takes one; the gap timer fires; the grant ends.
  arrives : Text → Address → Event
  works : Moment → Event
  gap_ends expires closes : Event
  -- `send_audio`: the two readings of the clock, the transport, the payload, timestamp and generation.
  sends : ℕ → ℕ → Bool → Text → ℕ → ℕ → Event

module _ (cipher : Cipher) where
  -- A round of `_run`, which waits on an empty queue and ends on the end marker.
  unfoldable pub work : Moment → Session → Session
  work m s = if not s.running then s else elim s.queue [
    | [] ↦ s
    | none ∷ rest ↦ record s { queue = rest; running = false }
    | some (datagram, addr) ∷ rest ↦
        after_handle (handle cipher datagram addr m (record s { queue = rest }))
  ]

  unfoldable pub step : Event → Session → Session
  step (arrives datagram addr) s = enqueue datagram addr s
  step (works m) s = work m s
  step gap_ends s = elim s.reorder_timer [ pending ↦ expire_reorder_gap s | other ↦ s ]
  step expires s = expire s
  step closes s = close s
  step (sends now sending_now transport payload timestamp generation) s =
      (send_audio cipher now sending_now transport payload timestamp generation s).0

  unfoldable pub run : List Event → Session → Session
  run [] s = s
  run (e ∷ es) s = run es (step e s)
