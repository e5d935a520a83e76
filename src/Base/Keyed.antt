-- ===== src/Base/Keyed.antt =====
-- Lists of records that are found by a text of theirs: `for _, a := range xs { if a.ID == id … }`.
use Prim.Native.String.{String}
use mathlib.Core.Path.{◌≡◌, refl}
use mathlib.Core.Logic.{inl, inr}
use mathlib.Core.Bool.{Bool, true, false, not}
use mathlib.Core.Option.{none, some}
use mathlib.Core.List.{List, [], ◌∷◌, ◌++◌}
use native.Mathlib.Omega.{arith}
use text.Mathlib.Text.{◌==◌}
use text.Mathlib.TextEquality.{eq_iff}
use copilot_pool_gateway.Base.Tests.{if◌then◌else◌, Bool-cases}
use copilot_pool_gateway.Base.Lists.{first, exists, update_first, keep}

module _ {ℓ} {A : Type ℓ} (key : A → String) where
  abbrev pub has_key : String → A → Bool
  has_key k a = key a == k

  -- No two records share the text.
  abbrev pub UniqueKeys : List A → Type 0
  UniqueKeys [] = Unit
  UniqueKeys (a ∷ rest) = (exists (has_key (key a)) rest ≡ false) × UniqueKeys rest

  pub first-none_of_exists :
      (k : String) (xs : List A) → exists (has_key k) xs ≡ false → first (has_key k) xs ≡ none
  first-none_of_exists k [] h = refl
  first-none_of_exists k (a ∷ rest) h = ground (arith, first-none_of_exists k rest)

  pub exists_of_first :
      (k : String) (xs : List A) (a : A)
      → first (has_key k) xs ≡ some a
      → (exists (has_key k) xs ≡ true) × (key a ≡ k)
  exists_of_first k [] a h = absurd (ground arith)
  exists_of_first k (x ∷ rest) a h = ground (arith, exists_of_first k rest a, eq_iff (key x) k)

  pub exists-update_first :
      (p : A → Bool) (j : String) (f : A → A) (xs : List A)
      → ((a : A) → key (f a) ≡ key a)
      → exists (has_key j) (update_first p f xs) ≡ exists (has_key j) xs
  exists-update_first p j f [] same = refl
  exists-update_first p j f (a ∷ rest) same =
      ground (arith, same a, exists-update_first p j f rest same)

  -- A rewrite of the first record with key `k`, read back.
  pub first-update_first :
      (k j : String) (f : A → A) (xs : List A)
      → ((a : A) → key (f a) ≡ key a)
      → first (has_key j) (update_first (has_key k) f xs) ≡ (
          if k == j
          then (elim (first (has_key j) xs) [ none ↦ none | some a ↦ some (f a) ])
          else first (has_key j) xs)
  first-update_first k j f [] same = ground arith
  first-update_first k j f (a ∷ rest) same = ground (
    arith,
    same a,
    first-update_first k j f rest same,
    eq_iff k j,
    eq_iff (key a) k,
    eq_iff (key a) j,
  )

  pub update_first-UniqueKeys :
      (p : A → Bool) (f : A → A) (xs : List A)
      → ((a : A) → key (f a) ≡ key a)
      → UniqueKeys xs
      → UniqueKeys (update_first p f xs)
  update_first-UniqueKeys p f [] same u = tt
  update_first-UniqueKeys p f (a ∷ rest) same u = ground (
    arith,
    same a,
    update_first-UniqueKeys p f rest same u.1,
    exists-update_first p (key a) f rest same,
  )

  first_passes :
      (p : A → Bool) (xs : List A) (b : A)
      → first p xs ≡ some b
      → exists (has_key (key b)) xs ≡ true
  first_passes p [] b h = absurd (ground arith)
  first_passes p (a ∷ rest) b h = ground (arith, first_passes p rest b, eq_iff (key a) (key b))

  -- With unique keys, the record that a test finds is the one that its key finds, and after a
  -- rewrite the rewritten one.
  pub first-update_first_found :
      (p : A → Bool) (f : A → A) (xs : List A) (b : A)
      → ((a : A) → key (f a) ≡ key a)
      → UniqueKeys xs
      → first p xs ≡ some b
      → first (has_key (key b)) (update_first p f xs) ≡ some (f b)
  first-update_first_found p f [] b same u h = absurd (ground arith)
  first-update_first_found p f (a ∷ rest) b same u h = ground (
    arith,
    same a,
    same b,
    first_passes p rest b,
    first-update_first_found p f rest b same u.1,
    eq_iff (key a) (key b),
    eq_iff (key b) (key b),
  )

  pub first_found :
      (p : A → Bool) (xs : List A) (b : A)
      → UniqueKeys xs
      → first p xs ≡ some b
      → first (has_key (key b)) xs ≡ some b
  first_found p [] b u h = absurd (ground arith)
  first_found p (a ∷ rest) b u h = ground (
    arith,
    first_passes p rest b,
    first_found p rest b u.1,
    eq_iff (key a) (key b),
    eq_iff (key b) (key b),
  )

  -- The rewrite of the record that a test finds leaves every other key alone.
  pub first-update_first_other :
      (p : A → Bool) (f : A → A) (xs : List A) (j : String)
      → ((a : A) → key (f a) ≡ key a)
      → ((b : A) → first p xs ≡ some b → (key b == j) ≡ false)
      → first (has_key j) (update_first p f xs) ≡ first (has_key j) xs
  first-update_first_other p f [] j same other = refl
  first-update_first_other p f (a ∷ rest) j same other = elim (Bool-cases (p a)) [
    | inl e ↦ ground (arith, same a, other a, eq_iff (key a) j)
    | inr e ↦ ground (
      arith,
      first-update_first_other p f rest j same (λ b h. other b (rw e h)),
      eq_iff (key a) j,
    )
  ]

  pub exists-append :
      (k : String) (xs : List A) (a : A)
      → exists (has_key k) (xs ++ a ∷ []) ≡ (if exists (has_key k) xs then true else key a == k)
  exists-append k [] a = ground arith
  exists-append k (x ∷ rest) a = ground (arith, exists-append k rest a)

  pub append-UniqueKeys :
      (xs : List A) (a : A)
      → UniqueKeys xs
      → exists (has_key (key a)) xs ≡ false
      → UniqueKeys (xs ++ a ∷ [])
  append-UniqueKeys [] a u h = (refl, tt)
  append-UniqueKeys (x ∷ rest) a u h = ground (
    arith,
    append-UniqueKeys rest a u.1,
    exists-append (key x) rest a,
    eq_iff (key a) (key x),
    eq_iff (key x) (key a),
  )

  pub first-append :
      (k : String) (xs : List A) (a : A)
      → first (has_key k) (xs ++ a ∷ []) ≡ (elim (first (has_key k) xs) [
        | none ↦ if key a == k then some a else none
        | some b ↦ some b
      ])
  first-append k [] a = refl
  first-append k (x ∷ rest) a = ground (arith, first-append k rest a)

  -- The list without every record of key `k`, read back.
  pub first-keep_other :
      (k j : String) (xs : List A)
      → first (has_key j) (keep (λ a. not (has_key k a)) xs)
        ≡ (if k == j then none else first (has_key j) xs)
  first-keep_other k j [] = ground arith
  first-keep_other k j (a ∷ rest) =
      ground (arith, first-keep_other k j rest, eq_iff k j, eq_iff (key a) k, eq_iff (key a) j)

  exists-keep :
      (k : String) (p : A → Bool) (xs : List A)
      → exists (has_key k) xs ≡ false
      → exists (has_key k) (keep p xs) ≡ false
  exists-keep k p [] h = refl
  exists-keep k p (a ∷ rest) h = ground (arith, exists-keep k p rest)

  pub keep-UniqueKeys : (p : A → Bool) (xs : List A) → UniqueKeys xs → UniqueKeys (keep p xs)
  keep-UniqueKeys p [] u = tt
  keep-UniqueKeys p (a ∷ rest) u =
      ground (arith, keep-UniqueKeys p rest u.1, exists-keep (key a) p rest u.0)

  first-replace :
      (m : A) (j : String) (xs : List A)
      → exists (has_key (key m)) xs ≡ true
      → first (has_key j) (update_first (has_key (key m)) (λ _. m) xs)
        ≡ (if key m == j then some m else first (has_key j) xs)
  first-replace m j [] h = absurd (ground arith)
  first-replace m j (x ∷ rest) h =
      ground
        (arith, first-replace m j rest, eq_iff (key m) j, eq_iff (key x) (key m), eq_iff (key x) j)

  -- Replace the record of the same key in place, or append.
  pub first-replace_or_append :
      (m : A) (j : String) (xs : List A)
      → first (has_key j) (
          if exists (has_key (key m)) xs
          then update_first (has_key (key m)) (λ _. m) xs
          else xs ++ m ∷ [])
        ≡ (if key m == j then some m else first (has_key j) xs)
  first-replace_or_append m j xs = ground (
    arith,
    first-replace m j xs,
    first-append j xs m,
    first-none_of_exists (key m) xs,
    eq_iff (key m) j,
  )
