-- ===== src/Instance/Turns/Session/Owners.antt =====
-- The classification against the accounts that the lookups find.
use copilot_pool_gateway.Base.{
  ℕ, ◌+◌, ◌-◌, ◌≤◌, ◌<◌, String, ◌≡◌, ◌≢◌, refl, sym, ap, ◌∙◌, true, false, ◌||◌, List, [], ◌∷◌,
  Option, none, some, arith, eq_iff, eq_refl, length, All,
}
use copilot_pool_gateway.Instance.Turns.{unique_trimmed}
use copilot_pool_gateway.Instance.Turns.Bindings.{Metadata, TurnStore, lookup_turn_account}
use copilot_pool_gateway.Instance.Turns.Session.{
  SessionResolution, SessionResolutionKind, canonical, split, orphan, member, mark_found,
  look_up_all, classify, resolve_trimmed, resolve_response_function_call_session,
}

abbrev with_owner : Option String → List String → List String
with_owner none owners = owners
with_owner (some a) owners = a ∷ owners

-- The accounts that the lookups of the identifiers find, one after the other.
unfoldable pub owners : Metadata → ℕ → List String → TurnStore → List String
unfolding lookup_turn_account
owners md now [] s = []
owners md now (id ∷ ids) s =
    let (found, s') = lookup_turn_account md now id s in with_owner found (owners md now ids s')

-- What a resolution says of the accounts that own the calls, out of `total` calls.
abbrev pub KindFits : SessionResolutionKind → String → List String → Type 0
KindFits canonical account_id found = All (λ a. a ≡ account_id) found × (0 < length found)
KindFits split account_id found =
    (a : String) × (b : String) × (member a found ≡ true) × (member b found ≡ true) × (a ≢ b)
KindFits orphan account_id found = found ≡ []

abbrev Different : List String → Type 0
Different [] = Unit
Different (a ∷ rest) = (member a rest ≡ false) × Different rest

mark_found-Different :
    (found : Option String) (seen : List String) (hits : ℕ)
    → Different seen
    → Different (mark_found found seen hits).0
mark_found-Different none seen hits d = d
mark_found-Different (some a) seen hits d = ground arith

look_up_all-Different :
    (md : Metadata) (now : ℕ) (ids seen : List String) (hits : ℕ) (s : TurnStore)
    → Different seen
    → Different (look_up_all md now ids seen hits s).0.0
unfolding look_up_all
look_up_all-Different md now [] seen hits s d = d
look_up_all-Different md now (id ∷ ids) seen hits s d =
    look_up_all-Different md now ids _ _ _
      (mark_found-Different (lookup_turn_account md now id s).0 seen hits d)

member-mark_found :
    (x : String) (found : Option String) (seen rest : List String) (hits : ℕ)
    → (member x (mark_found found seen hits).0 || member x rest)
      ≡ (member x seen || member x (with_owner found rest))
member-mark_found x none seen rest hits = refl
member-mark_found x (some a) seen rest hits = ground (arith, eq_iff a x)

member-look_up_all :
    (x : String) (md : Metadata) (now : ℕ) (ids seen : List String) (hits : ℕ) (s : TurnStore)
    → member x (look_up_all md now ids seen hits s).0.0
      ≡ (member x seen || member x (owners md now ids s))
unfolding look_up_all owners
member-look_up_all x md now [] seen hits s = ground arith
member-look_up_all x md now (id ∷ ids) seen hits s =
    let (found, s') = lookup_turn_account md now id s in
    let (seen', hits') = mark_found found seen hits in
    member-look_up_all x md now ids seen' hits' s'
    ∙ member-mark_found x found seen (owners md now ids s') hits

hits-look_up_all :
    (md : Metadata) (now : ℕ) (ids seen : List String) (hits : ℕ) (s : TurnStore)
    → (look_up_all md now ids seen hits s).0.1 ≡ hits + length (owners md now ids s)
unfolding look_up_all owners
hits-look_up_all md now [] seen hits s = omega arith
hits-look_up_all md now (id ∷ ids) seen hits s =
    let (found, s') = lookup_turn_account md now id s in
    let (seen', hits') = mark_found found seen hits in
    hits-look_up_all md now ids seen' hits' s' ∙ count found (owners md now ids s')
  where
    count :
        (found : Option String) (rest : List String)
        → (mark_found found seen hits).1 + length rest ≡ hits + length (with_owner found rest)
    count none rest = refl
    count (some a) rest = omega arith

length-owners-le :
    (md : Metadata) (now : ℕ) (ids : List String) (s : TurnStore)
    → length (owners md now ids s) ≤ length ids
unfolding owners
length-owners-le md now [] s = omega arith
length-owners-le md now (id ∷ ids) s =
    let (found, s') = lookup_turn_account md now id s in
    go found (owners md now ids s') (length-owners-le md now ids s')
  where
    go :
        (found : Option String) (rest : List String)
        → length rest ≤ length ids
        → length (with_owner found rest) ≤ length (id ∷ ids)
    go none rest h = omega arith
    go (some a) rest h = omega arith

no_members : (found : List String) → ((x : String) → member x found ≡ false) → found ≡ []
no_members [] h = refl
no_members (a ∷ rest) h = absurd (ground (arith, h a, eq_refl a))

only_member :
    (a : String) (found : List String)
    → ((x : String) → member x found ≡ true → a ≡ x)
    → All (λ b. b ≡ a) found
only_member a [] h = tt
only_member a (b ∷ rest) h =
    (sym (h b (ground (arith, eq_refl b))), only_member a rest (λ x m. h x (ground arith)))

classify-fits :
    (seen found : List String) (hits total : ℕ)
    → Different seen
    → ((x : String) → member x seen ≡ member x found)
    → let r : SessionResolution = classify seen hits total in KindFits r.kind r.account_id found
unfolding classify
classify-fits [] found hits total d same = no_members found (λ x. sym (same x))
classify-fits (a ∷ []) found hits total d same = (
  only_member a found (λ x m. ground (arith, same x, eq_iff a x)),
  some_member found (ground (arith, same a, eq_refl a)),
)
  where
    some_member : (found : List String) → member a found ≡ true → 0 < length found
    some_member [] h = absurd (ground arith)
    some_member (b ∷ rest) h = omega arith
classify-fits (a ∷ b ∷ rest) found hits total d same = (
  a,
  b,
  ground (arith, same a, eq_refl a),
  ground (arith, same b, eq_refl b),
  λ e. absurd (ground (arith, eq_iff b a, d.0)),
)

classify-counts :
    (seen found : List String) (hits miss : ℕ)
    → ((x : String) → member x seen ≡ member x found)
    → hits ≡ length found
    → let r : SessionResolution = classify seen hits miss in
      (r.hit_count ≡ length found) × (r.miss_count ≡ miss)
unfolding classify
classify-counts [] found hits miss same e =
    (ap length (sym (no_members found (λ x. sym (same x)))), refl)
classify-counts (a ∷ []) found hits miss same e = (e, refl)
classify-counts (a ∷ b ∷ rest) found hits miss same e = (e, refl)

resolve_trimmed-fits :
    (md : Metadata) (now : ℕ) (ids : List String) (s : TurnStore)
    → let r : SessionResolution = (resolve_trimmed md now ids s).0 in
      let found : List String = owners md now ids s in
      KindFits r.kind r.account_id found
      × (r.hit_count ≡ length found)
      × (r.hit_count + r.miss_count ≡ length ids)
unfolding resolve_trimmed owners classify
resolve_trimmed-fits md now [] s = (refl, refl, refl)
resolve_trimmed-fits md now (id ∷ ids) s =
    let all : List String = id ∷ ids in
    let seen : List String = (look_up_all md now all [] 0 s).0.0 in
    let hits : ℕ = (look_up_all md now all [] 0 s).0.1 in
    let found : List String = owners md now all s in
    let same : (x : String) → member x seen ≡ member x found =
      λ x. member-look_up_all x md now all [] 0 s in
    let e : hits ≡ length found = omega (arith, hits-look_up_all md now all [] 0 s) in
    let counts = classify-counts seen found hits (length all - hits) same e in
    (
      classify-fits seen found hits (length all - hits) (look_up_all-Different md now all [] 0 s tt)
          same,
      counts.0,
      omega (arith, counts.0, counts.1, e, length-owners-le md now all s),
    )

-- The resolution is canonical only if all the accounts that the lookups of the distinct call IDs
-- find are the one that it names, and there is one; split only if two different ones are found; an
-- orphan only if none is. The hits are the lookups that find an account, the misses the others.
pub resolve_session-fits :
    (md : Metadata) (now : ℕ) (call_ids : List String) (s : TurnStore)
    → let r : SessionResolution = (resolve_response_function_call_session md now call_ids s).0 in
      let found : List String = owners md now (unique_trimmed call_ids) s in
      KindFits r.kind r.account_id found
      × (r.hit_count ≡ length found)
      × (r.hit_count + r.miss_count ≡ length (unique_trimmed call_ids))
unfolding resolve_response_function_call_session
resolve_session-fits md now call_ids s = resolve_trimmed-fits md now (unique_trimmed call_ids) s
