-- ===== src/Instance/Turns/Cache/Bounds.antt =====
-- What pruning leaves.
use copilot_pool_gateway.Base.{
  ℕ, ◌+◌, ◌≤◌, String, ◌≡◌, refl, sym, ap, subst, ◌∙◌, Bool, true, false, ◌||◌, List, [], ◌∷◌,
  Option, none, some, arith, ◌==◌, eq_refl, ltb, leb, length, Bool-cases, inl, inr,
}
use copilot_pool_gateway.Base.StringMap.{
  StringMap, get, remove, retain, Distinct, get-remove, get-retain, filtered,
}
use copilot_pool_gateway.Instance.Turns.Cache.{
  TurnCache, TurnEntry, is_fresh, insert_key, sorted_keys, drop_oldest, prune,
}

abbrev has_entry : String → List (String × ℕ) → Bool
has_entry k [] = false
has_entry k ((j, at) ∷ rest) = j == k || has_entry k rest

has_entry-insert_key :
    (k : String) (x : String × ℕ) (keys : List (String × ℕ))
    → has_entry k (insert_key x keys) ≡ (x.0 == k || has_entry k keys)
unfolding insert_key
has_entry-insert_key k x [] = refl
has_entry-insert_key k x (j ∷ rest) = ground (arith, has_entry-insert_key k x rest)

-- Each key of the map is among the sorted ones.
has_entry-sorted_keys :
    (entries : TurnCache) (k : String) (e : TurnEntry)
    → get entries k ≡ some e
    → has_entry k (sorted_keys entries) ≡ true
unfolding sorted_keys get
has_entry-sorted_keys [] k e h = absurd (ground arith)
has_entry-sorted_keys ((j, v) ∷ rest) k e h = ground (
  arith,
  has_entry-insert_key k (j, v.accessed_at) (sorted_keys rest),
  has_entry-sorted_keys rest k e,
)

no_entries : (entries : TurnCache) → ((k : String) → get entries k ≡ none) → entries ≡ []
unfolding get
no_entries [] h = refl
no_entries ((j, v) ∷ rest) h = absurd (ground (arith, h j, eq_refl j))

is_none : Option TurnEntry → Bool
is_none none = true
is_none (some e) = false

-- If every key of the map is listed, dropping the listed ones in turn reaches the bound.
length-drop_oldest :
    (keys : List (String × ℕ)) (entries : TurnCache)
    → ((k : String) (e : TurnEntry) → get entries k ≡ some e → has_entry k keys ≡ true)
    → length (drop_oldest keys entries) ≤ 1024
unfolding drop_oldest
length-drop_oldest [] entries h =
    rw (no_entries entries (λ k. no_key k (get entries k) refl)) (omega arith)
  where
    no_key : (k : String) (o : Option TurnEntry) → get entries k ≡ o → o ≡ none
    no_key k none e = refl
    no_key k (some v) e = absurd (ground (arith, h k v e))
length-drop_oldest ((key, at) ∷ keys) entries h =
    let smaller : length (drop_oldest keys (remove entries key)) ≤ 1024 =
      length-drop_oldest keys (remove entries key)
        (λ k e f. ground (arith, get-remove entries key k, h k e)) in
    ground arith

module _ {V : Type 0} where
  -- What is left of a key under a test is what was there.
  pub get-retain_sub :
      (p : String × V → Bool) (m : StringMap V) (k : String) (v : V)
      → Distinct m
      → get (retain p m) k ≡ some v
      → (get m k ≡ some v) × (p (k, v) ≡ true)
  get-retain_sub p m k v d h = go (get m k) (sym (get-retain p m k d) ∙ h)
    where
      go : (o : Option V) → filtered p k o ≡ some v → (o ≡ some v) × (p (k, v) ≡ true)
      go none e = absurd (ground arith)
      go (some w) e = elim (Bool-cases (p (k, w))) [
        | inl t ↦
            let same : w ≡ v = ground arith in (ap some same, subst (λ u. p (k, u) ≡ true) same t)
        | inr f ↦ absurd (ground arith)
      ]

get-drop_oldest :
    (keys : List (String × ℕ)) (entries : TurnCache) (k : String) (e : TurnEntry)
    → get (drop_oldest keys entries) k ≡ some e
    → get entries k ≡ some e
unfolding drop_oldest
get-drop_oldest [] entries k e h = h
get-drop_oldest ((key, at) ∷ keys) entries k e h = elim (Bool-cases (ltb 1024 (length entries))) [
  | inl t ↦
      let f : get (remove entries key) k ≡ some e =
        get-drop_oldest keys (remove entries key) k e (rw t at h) in
      ground (arith, get-remove entries key k)
  | inr t ↦ rw t at h
]

-- Pruning leaves at most 1024 entries.
pub length-prune-le : (now : ℕ) (entries : TurnCache) → length (prune now entries) ≤ 1024
unfolding prune
length-prune-le now entries =
    elim (Bool-cases (leb (length (retain (is_fresh now) entries)) 1024)) [
      | inl t ↦ rw t (ground arith)
      | inr t ↦ rw t (
          length-drop_oldest _ _
            (λ k e h. has_entry-sorted_keys (retain (is_fresh now) entries) k e h))
    ]

-- An entry that pruning leaves was there, and is not older than the time to live.
pub get-prune :
    (now : ℕ) (entries : TurnCache) (k : String) (e : TurnEntry)
    → Distinct entries
    → get (prune now entries) k ≡ some e
    → (get entries k ≡ some e) × (now ≤ e.created_at + 1800000000000)
unfolding prune
get-prune now entries k e d h =
    let (was, fresh) =
      get-retain_sub (is_fresh now) entries k e d
        (elim (Bool-cases (leb (length (retain (is_fresh now) entries)) 1024)) [
          | inl t ↦ rw t at h
          | inr t ↦ get-drop_oldest _ _ k e (rw t at h)
        ]) in
    (was, ground arith)
