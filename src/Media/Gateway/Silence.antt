-- ===== src/Media/Gateway/Silence.antt =====
-- A session after its end: the grant has run out, or it was closed.
use realtime_voice_agent.Common.{◌≡◌, ◌≢◌, Bool, true, false, ◌||◌}
use realtime_voice_agent.Media.Gateway.{Cipher, Session, pending}
use realtime_voice_agent.Media.Gateway.Moves.{view}
use realtime_voice_agent.Media.Gateway.Events.{Event, expires, closes}

-- No task of the session runs, and it is marked.
pub record IsOver (s : Session) : Type 0 where
  pub marked : (s.closed || s.expired) ≡ true
  pub stopped : s.running ≡ false
  pub no_gap : s.reorder_timer ≢ pending

module _ (cipher : Cipher) where
  -- An event leaves what the view shows, and the session over.
  record Rests (s t : Session) : Type 0 where
    pub same : view t ≡ view s
    pub over : IsOver t

  abbrev pub ends : Event → Bool
  ends expires = true
  ends closes = true
  ends _ = false
