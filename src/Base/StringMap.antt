-- ===== src/Base/StringMap.antt =====
-- Go's `map[string]V`: an association list with distinct keys. Its order stands for the order in
-- which a `range` loop meets the entries, which Go leaves open.
use Prim.Native.Nat.{◌+◌, ◌≤◌, ◌<◌}
use Prim.Native.String.{String}
use mathlib.Core.Path.{◌≡◌, refl}
use mathlib.Core.Logic.{inl, inr}
use mathlib.Core.Bool.{Bool}
use mathlib.Core.Option.{Option, none, some}
use mathlib.Core.List.{List, [], ◌∷◌}
use native.Mathlib.Omega.{arith}
use text.Mathlib.Text.{◌==◌}
use text.Mathlib.TextEquality.{eq_iff}
use copilot_pool_gateway.Base.Tests.{if◌then◌else◌, Bool-cases}
use copilot_pool_gateway.Base.Lists.{length, keep}

abbrev pub StringMap {ℓ} : Type ℓ → Type ℓ
StringMap V = List (String × V)

module _ {ℓ} {V : Type ℓ} where
  -- `v, ok := m[k]`
  unfoldable pub get : StringMap V → String → Option V
  get [] k = none
  get ((j, v) ∷ m) k = if j == k then some v else get m k

  -- `m[k] = v`
  unfoldable pub put : StringMap V → String → V → StringMap V
  put [] k v = (k, v) ∷ []
  put ((j, w) ∷ m) k v = if j == k then (j, v) ∷ m else (j, w) ∷ put m k v

  -- `delete(m, k)`
  unfoldable pub remove : StringMap V → String → StringMap V
  remove [] k = []
  remove ((j, w) ∷ m) k = let rest = remove m k in if j == k then rest else (j, w) ∷ rest

  -- The entries that pass a test: a `range` loop that deletes the others.
  abbrev pub retain : (String × V → Bool) → StringMap V → StringMap V
  retain p m = keep p m

  abbrev pub Distinct : StringMap V → Type ℓ
  Distinct [] = Unit
  Distinct ((k, v) ∷ m) = (get m k ≡ none) × Distinct m

  pub get-put :
      (m : StringMap V) (k j : String) (v : V)
      → get (put m k v) j ≡ (if k == j then some v else get m j)
  unfolding get put
  get-put [] k j v = refl
  get-put ((i, w) ∷ m) k j v = ground (arith, eq_iff k j, eq_iff i k, eq_iff i j, get-put m k j v)

  pub get-remove :
      (m : StringMap V) (k j : String) → get (remove m k) j ≡ (if k == j then none else get m j)
  unfolding get remove
  get-remove [] k j = ground arith
  get-remove ((i, w) ∷ m) k j = ground (arith, eq_iff k j, eq_iff i k, eq_iff i j, get-remove m k j)

  pub length-put-le : (m : StringMap V) (k : String) (v : V) → length (put m k v) ≤ length m + 1
  unfolding put
  length-put-le [] k v = omega arith
  length-put-le ((i, w) ∷ m) k v = ground (arith, length-put-le m k v)

  pub length-remove-le : (m : StringMap V) (k : String) → length (remove m k) ≤ length m
  unfolding remove
  length-remove-le [] k = omega arith
  length-remove-le ((i, w) ∷ m) k = ground (arith, length-remove-le m k)

  -- Deleting a key that is there makes the map smaller.
  pub length-remove-lt :
      (m : StringMap V) (k : String) (v : V) → get m k ≡ some v → length (remove m k) < length m
  unfolding remove get
  length-remove-lt [] k v h = absurd (ground arith)
  length-remove-lt ((i, w) ∷ m) k v h = ground (arith, length-remove-lt m k v, length-remove-le m k)

  pub put-Distinct : (m : StringMap V) (k : String) (v : V) → Distinct m → Distinct (put m k v)
  unfolding put get
  put-Distinct [] k v d = (refl, tt)
  put-Distinct ((i, w) ∷ m) k v d =
      ground (arith, put-Distinct m k v d.1, get-put m k i v, eq_iff i k, eq_iff k i)

  pub remove-Distinct : (m : StringMap V) (k : String) → Distinct m → Distinct (remove m k)
  unfolding remove get
  remove-Distinct [] k d = tt
  remove-Distinct ((i, w) ∷ m) k d = ground (arith, remove-Distinct m k d.1, get-remove m k i)

  get-retain-none :
      (p : String × V → Bool) (m : StringMap V) (k : String)
      → get m k ≡ none
      → get (retain p m) k ≡ none
  unfolding get
  get-retain-none p [] k h = refl
  get-retain-none p ((i, w) ∷ m) k h = ground (arith, get-retain-none p m k)

  pub retain-Distinct :
      (p : String × V → Bool) (m : StringMap V) → Distinct m → Distinct (retain p m)
  retain-Distinct p [] d = tt
  retain-Distinct p ((i, w) ∷ m) d =
      ground (arith, retain-Distinct p m d.1, get-retain-none p m i d.0)

  abbrev pub filtered : (String × V → Bool) → String → Option V → Option V
  filtered p k none = none
  filtered p k (some v) = if p (k, v) then some v else none

  -- What a test leaves of a key is what it says of the key's entry.
  pub get-retain :
      (p : String × V → Bool) (m : StringMap V) (k : String)
      → Distinct m
      → get (retain p m) k ≡ filtered p k (get m k)
  unfolding get
  get-retain p [] k d = refl
  get-retain p ((i, w) ∷ m) k d = elim (Bool-cases (i == k)) [
    | inl e ↦ ground (arith, eq_iff i k, get-retain-none p m i d.0)
    | inr e ↦ ground (arith, get-retain p m k d.1)
  ]
