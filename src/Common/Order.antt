-- ===== src/Common/Order.antt =====
-- Lexicographic order of texts, and a stable sort by a total order given as a test.
use mathlib.Core.Path.{◌≡◌, refl}
use mathlib.Core.Logic.{◌⊎◌, inl, inr}
use mathlib.Core.Bool.{Bool, true, false, ◌&&◌, ◌||◌}
use mathlib.Core.List.{List, [], ◌∷◌, Perm}
use mathlib.Core.List.Perm
use native.Mathlib.Omega.{arith}
use realtime_voice_agent.Common.Tests.{ltb, nat_eq, if◌then◌else◌}
use realtime_voice_agent.Common.Keys.{Text}

-- `a <= b` on strings: code points in order, which is the order of the UTF-8 bytes.
unfoldable pub text_le : Text → Text → Bool
text_le [] ys = true
text_le (x ∷ xs) [] = false
text_le (x ∷ xs) (y ∷ ys) = ltb x y || (nat_eq x y && text_le xs ys)

pub text_le-total : (a b : Text) → (text_le a b ≡ true) ⊎ (text_le b a ≡ true)
unfolding text_le
text_le-total [] ys = inl refl
text_le-total (x ∷ xs) [] = inr refl
text_le-total (x ∷ xs) (y ∷ ys) = ground (arith, text_le-total xs ys)

module _ {ℓ} {A : Type ℓ} (le : A → A → Bool) where
  unfoldable pub insert : A → List A → List A
  insert a [] = a ∷ []
  insert a (x ∷ xs) = let rest = insert a xs in if le a x then a ∷ x ∷ xs else x ∷ rest

  -- `sorted(xs, key=...)`: an element goes before the later ones that it does not exceed.
  unfoldable pub sort : List A → List A
  sort [] = []
  sort (x ∷ xs) = insert x (sort xs)

  pub insert-perm : (a : A) (xs : List A) → Perm (insert a xs) (a ∷ xs)
  unfolding insert
  insert-perm a [] = Perm.refl _
  insert-perm a (x ∷ xs) =
      let deeper = Perm.trans (Perm.cons x (insert-perm a xs)) (Perm.swap a x xs) in
      if_perm (le a x) deeper
    where
      if_perm :
          (b : Bool)
          → Perm (x ∷ insert a xs) (a ∷ x ∷ xs)
          → Perm (if b then a ∷ x ∷ xs else x ∷ insert a xs) (a ∷ x ∷ xs)
      if_perm true p = Perm.refl _
      if_perm false p = p

  pub sort-perm : (xs : List A) → Perm (sort xs) xs
  unfolding sort
  sort-perm [] = Perm.refl _
  sort-perm (x ∷ xs) = Perm.trans (insert-perm x (sort xs)) (Perm.cons x (sort-perm xs))

  abbrev pub BoundsAll : A → List A → Type 0
  BoundsAll a [] = Unit {0}
  BoundsAll a (x ∷ xs) = (le a x ≡ true) × BoundsAll a xs

  -- Every element is at most each later one.
  abbrev pub IsSorted : List A → Type 0
  IsSorted [] = Unit {0}
  IsSorted (x ∷ xs) = BoundsAll x xs × IsSorted xs
