-- ===== src/Media/Replay/History.antt =====
-- The sequences that were admitted, newest first: the highest of them, and what lies above it.
use realtime_voice_agent.Common.{
  ℕ, ◌-◌, ◌<◌, ◌≡◌, refl, inl, inr, Bool, true, false, not, ◌&&◌, Option, none, some, List, [], ◌∷◌,
  contains, nat_key, arith, ltb, leb, max, if◌then◌else◌, Option-cases,
}
use realtime_voice_agent.Media.Replay.{replay_window_packets, max_sequence_forward_jump}

abbrev pub raise_to : ℕ → Option ℕ → ℕ
raise_to x none = x
raise_to x (some m) = max x m

abbrev pub max_of : List ℕ → Option ℕ
max_of [] = none
max_of (x ∷ xs) = some (raise_to x (max_of xs))

-- The rule that the two windows implement: not seen before, at most 1024 ahead of the highest and
-- less than 64 behind it.
unfoldable pub admits : List ℕ → ℕ → Bool
admits seen sequence = elim (max_of seen) [
  | none ↦ true
  | some h ↦
      if ltb h sequence
      then leb (sequence - h) max_sequence_forward_jump
      else ltb (h - sequence) replay_window_packets && not (contains seen sequence)
]

pub contains-none : (seen : List ℕ) (x : ℕ) → max_of seen ≡ none → contains seen x ≡ false
contains-none [] x e = refl
contains-none (y ∷ seen) x e = absurd (cc)

-- Nothing above the highest has been seen.
pub contains_above :
    (seen : List ℕ) (h x : ℕ) → max_of seen ≡ some h → h < x → contains seen x ≡ false
contains_above [] h x e l = refl
contains_above (y ∷ seen) h x e l = elim (Option-cases (max_of seen)) [
  | inl f ↦ ground (arith, contains-none seen x f)
  | inr (m, f) ↦ ground (arith, contains_above seen m x f)
]
