-- ===== src/Instance/Turns/Bindings/Evicted.antt =====
-- Eviction of an account.
use copilot_pool_gateway.Base.{
  ℕ, String, ◌≡◌, ◌≢◌, refl, Bool, true, false, ◌&&◌, Option, none, some, arith, ◌==◌, eq_iff,
  eq_refl, if◌then◌else◌, ltb, trim, Bool-cases, inl, inr,
}
use copilot_pool_gateway.Base.StringMap.{StringMap, get, Distinct, retain-Distinct}
use copilot_pool_gateway.Instance.Turns.Cache.{
  TurnCache, TurnEntry, prune, lookup_account, account_from, evict_account,
}
use copilot_pool_gateway.Instance.Turns.Cache.Bounds.{get-prune, get-retain_sub}
use copilot_pool_gateway.Instance.Turns.Bindings.{
  Binding, Metadata, TurnStore, unix, seen_row, lookup_binding, account_restored, account_or_row,
  lookup_turn_account, evict_turns,
}

-- A lookup's result is not of the account.
abbrev IsNot : String → Option String → Type 0
IsNot a none = Unit
IsNot a (some b) = (b == a) ≡ false

IsNot-neq : (a : String) (o : Option String) → IsNot a o → o ≢ some a
IsNot-neq a none h e = absurd (ground arith)
IsNot-neq a (some b) h e = absurd (ground (arith, eq_refl a, eq_iff b a))

module _ (a : String) (now : ℕ) (id : String) where
  entry-IsNot :
      (c : TurnCache) (o : Option TurnEntry)
      → ((e : TurnEntry) → o ≡ some e → (e.account_id == a) ≡ false)
      → IsNot a (account_from now id o c).0
  entry-IsNot c none h = tt
  entry-IsNot c (some e) h = h e refl

  row-IsNot :
      (writes : Bool) (rows : StringMap Binding) (o : Option Binding) (c : TurnCache)
      → ((b : Binding) → o ≡ some b → (b.account_id == a) ≡ false)
      → IsNot a (account_restored now id (seen_row writes now id o rows) c).0
  row-IsNot writes rows none c h = tt
  row-IsNot writes rows (some b) c h = elim (Bool-cases (ltb b.expires (unix now))) [
    | inl t ↦ rw t tt
    | inr t ↦ rw t (h b refl)
  ]

  lookup_account-IsNot :
      (c : TurnCache)
      → ((k : String) (e : TurnEntry) → get (prune now c) k ≡ some e → (e.account_id == a) ≡ false)
      → IsNot a (lookup_account now id c).0
  unfolding lookup_account
  lookup_account-IsNot c h = elim (Bool-cases (trim id == "")) [
    | inl t ↦ rw t tt
    | inr t ↦ rw t (go (get (prune now c) (trim id)) (h (trim id)))
  ]
    where
      go :
          (o : Option TurnEntry)
          → ((e : TurnEntry) → o ≡ some e → (e.account_id == a) ≡ false)
          → IsNot a (account_from now (trim id) o (prune now c)).0
      go none f = tt
      go (some e) f = f e refl

  or_row-IsNot :
      (md : Metadata) (s : TurnStore) (r : Option String) (c : TurnCache)
      → ((k : String) (b : Binding) → get s.bindings k ≡ some b → (b.account_id == a) ≡ false)
      → IsNot a r
      → IsNot a (account_or_row md now id (r, c) s).0
  unfolding lookup_binding
  or_row-IsNot md s (some b) c rows h = h
  or_row-IsNot md s none c rows h =
      if_IsNot md.enabled _ _
        (elim (Bool-cases (md.opens && md.reads)) [
          | inl u ↦ rw u (row-IsNot md.writes s.bindings _ c (λ b. rows id b))
          | inr u ↦ rw u tt
        ])
        tt
    where
      if_IsNot :
          (t : Bool) (x y : Option String × TurnStore)
          → IsNot a x.0
          → IsNot a y.0
          → IsNot a (if t then x else y).0
      if_IsNot true x y p q = p
      if_IsNot false x y p q = q

-- Once an account is evicted from a cache and rows with one entry for each key, with a database that
-- takes the deletion, no identifier is looked up as the account's, at any time.
pub lookup_turn_account-evict_turns :
    (md later : Metadata) (now : ℕ) (id a : String) (s : TurnStore)
    → Distinct s.entries
    → Distinct s.bindings
    → (md.enabled && md.opens && md.writes) ≡ true
    → (lookup_turn_account later now id (evict_turns md a s).1).0 ≢ some a
unfolding lookup_turn_account evict_turns evict_account
lookup_turn_account-evict_turns md later now id a s de db lands = IsNot-neq a _ (
    or_row-IsNot a now id later _ _ _
      (λ k b h.
        let (was, other) = get-retain_sub _ s.bindings k b db (rw lands at h) in ground arith)
      (lookup_account-IsNot a now id _ (λ k e h.
        let (kept, _) = get-prune now _ k e (retain-Distinct _ s.entries de) h in
        let (was, other) = get-retain_sub _ s.entries k e de kept in ground arith)))
