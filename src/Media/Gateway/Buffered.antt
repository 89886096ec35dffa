-- ===== src/Media/Gateway/Buffered.antt =====
-- How many packets the reorder buffer can hold.
use realtime_voice_agent.Common.{ℕ, ◌+◌, ◌≤◌, ◌<◌, ◌≡◌, none, some, [], ◌∷◌, nat_key}
use realtime_voice_agent.Common.Dict.{Dict, get}
use realtime_voice_agent.Media.Gateway.{Packet}
use realtime_voice_agent.Media.Gateway.Moves.{View, or_zero}

-- No number twice.
abbrev IsKeyed : Dict ℕ Packet → Type 0
IsKeyed [] = Unit {0}
IsKeyed ((k, p) ∷ d) = (get k d ≡ none) × IsKeyed d

-- All numbers from `a` on, and below `a + n`.
abbrev LiesIn : ℕ → ℕ → Dict ℕ Packet → Type 0
LiesIn a n d = (j : ℕ) (p : Packet) → get j d ≡ some p → (a ≤ j) × (j < a + n)

record IsWindow (v : View) : Type 0 where
  pub keyed : IsKeyed v.buffer
  pub within : LiesIn (or_zero v.cursor) 4 v.buffer
