-- ===== src/Common/Dict.antt =====
-- Python's `dict` as an association list: an update keeps the place of its key, a new key goes last.
use realtime_voice_agent.Common.Tests.{if◌then◌else◌}
use realtime_voice_agent.Common.Lists.{length}
use realtime_voice_agent.Common.Keys.{Eq, ◌==◌, eq_iff}
use Prim.Native.Nat.{ℕ, ◌+◌, ◌≤◌}
use mathlib.Core.Path.{◌≡◌, refl}
use mathlib.Core.Bool.{Bool}
use mathlib.Core.Option.{Option, none, some}
use mathlib.Core.List.{List, [], ◌∷◌}
use native.Mathlib.Omega.{arith}

abbrev pub Dict {ℓ κ} : Type ℓ → Type κ → Type (ℓ ⊔ κ)
Dict K V = List (K × V)

-- What remains of an entry whose value is kept only if it passes a test.
abbrev pub keep_if {ℓ} : {V : Type ℓ} → (V → Bool) → Option V → Option V
keep_if p none = none
keep_if p (some v) = if p v then some v else none

module _ {ℓ κ} {K : Type ℓ} {V : Type κ} ⦃e : Eq K⦄ where
  -- d.get(k)
  unfoldable pub get : K → Dict K V → Option V
  get k [] = none
  get k ((j, v) ∷ d) = if j == k then some v else get k d

  -- d[k] = v
  unfoldable pub put : K → V → Dict K V → Dict K V
  put k v [] = (k, v) ∷ []
  put k v ((j, w) ∷ d) = if j == k then (k, v) ∷ d else (j, w) ∷ put k v d

  -- d.pop(k, None)
  unfoldable pub remove : K → Dict K V → Dict K V
  remove k [] = []
  remove k ((j, v) ∷ d) = let rest = remove k d in if j == k then rest else (j, v) ∷ rest

  -- {k: v for k, v in d.items() if p(v)}. A dict holds each key once: where an entry goes, so would
  -- any later one of its key.
  unfoldable pub keep : (V → Bool) → Dict K V → Dict K V
  keep p [] = []
  keep p ((k, v) ∷ d) = let rest = keep p d in if p v then (k, v) ∷ rest else remove k rest

  -- d.values()
  unfoldable pub values : Dict K V → List V
  values [] = []
  values ((k, v) ∷ d) = v ∷ values d

  -- sum(p(v) for v in d.values())
  unfoldable pub count : (V → Bool) → Dict K V → ℕ
  count p [] = 0
  count p ((k, v) ∷ d) = (if p v then 1 else 0) + count p d

  pub get-put :
      (k j : K) (v : V) (d : Dict K V) → get j (put k v d) ≡ (if k == j then some v else get j d)
  unfolding get put
  get-put k j v [] = refl
  get-put k j v ((i, w) ∷ d) = ground (arith, eq_iff k j, eq_iff i k, eq_iff i j, get-put k j v d)

  pub get-remove :
      (k j : K) (d : Dict K V) → get j (remove k d) ≡ (if k == j then none else get j d)
  unfolding get remove
  get-remove k j [] = ground arith
  get-remove k j ((i, w) ∷ d) = ground (arith, eq_iff k j, eq_iff i k, eq_iff i j, get-remove k j d)

  pub get-keep : (p : V → Bool) (j : K) (d : Dict K V) → get j (keep p d) ≡ keep_if p (get j d)
  unfolding get keep
  get-keep p j [] = refl
  get-keep p j ((k, v) ∷ d) = ground (arith, get-keep p j d, get-remove k j (keep p d))

  pub count-remove-le : (p : V → Bool) (k : K) (d : Dict K V) → count p (remove k d) ≤ count p d
  unfolding count remove
  count-remove-le p k [] = omega arith
  count-remove-le p k ((j, v) ∷ d) = ground (arith, count-remove-le p k d)

  pub count-keep-le : (p q : V → Bool) (d : Dict K V) → count p (keep q d) ≤ count p d
  unfolding count keep
  count-keep-le p q [] = omega arith
  count-keep-le p q ((k, v) ∷ d) =
      ground (arith, count-keep-le p q d, count-remove-le p k (keep q d))

  -- A new key adds its own value to the count.
  pub count-put_new :
      (p : V → Bool) (k : K) (v : V) (d : Dict K V)
      → get k d ≡ none
      → count p (put k v d) ≡ count p d + (if p v then 1 else 0)
  unfolding count put get
  count-put_new p k v [] h = omega arith
  count-put_new p k v ((j, w) ∷ d) h = ground (arith, count-put_new p k v d)

  -- A value that counts as the one in its place leaves the count.
  pub count-put_old :
      (p : V → Bool) (k : K) (v w : V) (d : Dict K V)
      → get k d ≡ some w
      → p w ≡ p v
      → count p (put k v d) ≡ count p d
  unfolding count put get
  count-put_old p k v w [] h same = absurd (ground arith)
  count-put_old p k v w ((j, x) ∷ d) h same = ground (arith, count-put_old p k v w d)

  pub length-put-le : (k : K) (v : V) (d : Dict K V) → length (put k v d) ≤ length d + 1
  unfolding put
  length-put-le k v [] = omega arith
  length-put-le k v ((j, w) ∷ d) = ground (arith, length-put-le k v d)

  pub length-remove-le : (k : K) (d : Dict K V) → length (remove k d) ≤ length d
  unfolding remove
  length-remove-le k [] = omega arith
  length-remove-le k ((j, v) ∷ d) = ground (arith, length-remove-le k d)

  pub remove_absent : (k : K) (d : Dict K V) → get k d ≡ none → remove k d ≡ d
  unfolding get remove
  remove_absent k [] h = refl
  remove_absent k ((j, v) ∷ d) h = ground (arith, remove_absent k d)

  -- A new entry that is taken out again leaves the dictionary as it was.
  pub remove-put_new : (k : K) (v : V) (d : Dict K V) → get k d ≡ none → remove k (put k v d) ≡ d
  unfolding get put remove
  remove-put_new k v [] h = ground (arith, eq_iff k k)
  remove-put_new k v ((j, w) ∷ d) h = ground (arith, remove-put_new k v d)

pub ruleset dict_laws = (get-put, get-remove, get-keep)
