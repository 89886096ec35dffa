-- ===== src/Media/Gateway/Played.antt =====
-- The order in which a session gives audio to its receiver.
use realtime_voice_agent.Common.{ℕ, ◌<◌, List, [], ◌∷◌, nat_key, text_key}
use realtime_voice_agent.Media.Gateway.{Packet}
use realtime_voice_agent.Media.Gateway.Moves.{View, or_zero}

-- The newest first: each number below the ones in front of it.
abbrev pub IsBelow : ℕ → List (ℕ × Packet) → Type 0
IsBelow n [] = Unit {0}
IsBelow n ((k, p) ∷ rest) = (k < n) × IsBelow k rest

-- Everything heard lies below the cursor; without one nothing was heard.
abbrev pub IsInOrder : View → Type 0
IsInOrder v = IsBelow (or_zero v.cursor) v.heard
