-- ===== src/Worker/VoiceSession.antt =====
-- realtime_worker/voice/session.py, `VoiceSessionState`: which playback owns the connection. Every
-- transition holds `_transition_lock`, so each method is one step.
pub mod Fence
use realtime_voice_agent.Common.{
  ℕ, suc, ◌+◌, Bool, true, false, not, ◌&&◌, ◌||◌, Option, none, some, List, [], ◌∷◌, ◌++◌,
  if◌then◌else◌, Text, text_key, nat_key, ◌==◌, is_some, Result, ok, err, is_empty,
}

pub data SessionError : Type 0 where
  session_closed playback_already_active : SessionError

pub record PlaybackRef : Type 0 where
  pub connection_epoch : Text
  pub generation : ℕ

pub data CancelDisposition : Type 0 where
  applied stale_target session_closed : CancelDisposition

-- How the `close()` of a port ended under its hard deadline.
pub data PortClose : Type 0 where
  completed timed_out raised : PortClose

pub record Session : Type 0 where
  pub connection_epoch : Text
  pub generation : ℕ
  pub active_playback : Option PlaybackRef
  pub closed : Bool

-- `connection_epoch or f"conn_{uuid.uuid4().hex}"`
unfoldable pub init : Text → Text → Session
init connection_epoch generated = record {
  connection_epoch = if is_empty connection_epoch then generated else connection_epoch;
  generation = 0;
  active_playback = none;
  closed = false;
}

abbrev pub ref_eq : PlaybackRef → PlaybackRef → Bool
ref_eq p q = (p.connection_epoch == q.connection_epoch) && (p.generation == q.generation)

-- `playback == self._active_playback`
abbrev pub is_active : PlaybackRef → Option PlaybackRef → Bool
is_active p none = false
is_active p (some q) = ref_eq p q

unfoldable pub begin_playback : Session → Session × Result SessionError PlaybackRef
begin_playback s =
    if s.closed
    then (s, err SessionError.session_closed)
    else if is_some s.active_playback
    then (s, err playback_already_active)
    else let playback : PlaybackRef = record {
      connection_epoch = s.connection_epoch;
      generation = s.generation + 1;
    } in
      (record s { generation = s.generation + 1; active_playback = some playback }, ok playback)

unfoldable pub accepts_callback : PlaybackRef → Session → Bool
accepts_callback playback s = not s.closed && is_active playback s.active_playback

-- Run a sink only while its playback is the active one.
unfoldable pub accept_callback {ℓ} :
    {A : Type ℓ} → PlaybackRef → (Unit {0} → A) → Session → Option A
accept_callback playback callback s =
    if accepts_callback playback s then some (callback tt) else none

unfoldable pub finish_playback : PlaybackRef → Session → Session × Bool
finish_playback target s =
    if s.closed || not (is_active target s.active_playback)
    then (s, false)
    else (record s { active_playback = none }, true)

unfoldable pub cancel_playback : PlaybackRef → Session → Session × CancelDisposition
cancel_playback target s =
    if s.closed
    then (s, CancelDisposition.session_closed)
    else if not (is_active target s.active_playback)
    then (s, stale_target)
    else (record s { generation = s.generation + 1; active_playback = none }, applied)

-- `_close_impl` up to the ports.
unfoldable pub close_state : Session → Session
close_state s =
    if s.closed
    then s
    else if is_some s.active_playback
    then record s { closed = true; generation = s.generation + 1; active_playback = none }
    else record s { closed = true }

-- The failures of the ports, in reverse order of registration; any of them makes `close` raise.
unfoldable pub close_errors : List PortClose → List PortClose
close_errors [] = []
close_errors (p ∷ ps) =
    let later = close_errors ps in
    elim p [
      | completed ↦ later
      | timed_out ↦ later ++ timed_out ∷ []
      | raised ↦ later ++ raised ∷ []
    ]
