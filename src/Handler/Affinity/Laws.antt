-- ===== src/Handler/Affinity/Laws.antt =====
-- The bound on the maps, and whom they send requests to.
use copilot_pool_gateway.Base.{
  ℕ, ◌-◌, ◌≤◌, ◌<◌, String, ◌≡◌, refl, subst, Bool, true, false, not, ◌||◌, List, [], ◌∷◌, Option,
  none, some, arith, ◌==◌, eq_iff, eq_refl, if◌then◌else◌, ltb, length, trim, Bool-cases, inl, inr,
}
use copilot_pool_gateway.Base.StringMap.{get, put, remove, length-put-le, length-remove-lt}
use copilot_pool_gateway.Handler.Affinity.{
  Affinity, AffinityEntry, Accounts, oldest_from, drop_oldest, bind_session_affinity,
  lookup_messages_session_affinity, lookup_responses_session_affinity, lookup_messages,
  lookup_responses,
}

-- No session has a blank key.
abbrev NoBlank : Affinity → Type 0
NoBlank [] = Unit
NoBlank ((k, e) ∷ rest) = ((k == "") ≡ false) × NoBlank rest

-- The oldest key is one of the map.
abbrev is_found : Option AffinityEntry → Bool
is_found none = false
is_found (some e) = true

oldest_from_found :
    (key : String) (oldest : ℕ) (c : Affinity)
    → NoBlank c
    → (oldest_from key oldest c == key || is_found (get c (oldest_from key oldest c))) ≡ true
unfolding oldest_from get
oldest_from_found key oldest [] h = ground (arith, eq_refl key)
oldest_from_found key oldest ((k, e) ∷ rest) h =
    elim (Bool-cases (key == "" || ltb e.accessed_at oldest)) [
      | inl t ↦ rw t (
          let z : String = oldest_from k e.accessed_at rest in
          ground (arith, oldest_from_found k e.accessed_at rest h.1, eq_iff k z, eq_iff z k))
      | inr t ↦ rw t (
          let z : String = oldest_from key oldest rest in
          ground (arith, oldest_from_found key oldest rest h.1))
    ]

get_blank : (c : Affinity) → NoBlank c → get c "" ≡ none
unfolding get
get_blank [] h = refl
get_blank ((k, e) ∷ rest) h = ground (arith, get_blank rest h.1)

-- In a map with entries, the oldest key is one of them.
oldest_found :
    (k : String) (e : AffinityEntry) (rest : Affinity)
    → NoBlank ((k, e) ∷ rest)
    → is_found (get ((k, e) ∷ rest) (oldest_from "" 0 ((k, e) ∷ rest))) ≡ true
unfolding oldest_from get
oldest_found k e rest h =
    let z : String = oldest_from k e.accessed_at rest in
    ground (arith, oldest_from_found k e.accessed_at rest h.1, eq_iff k z, eq_iff z k)

length-remove_found :
    (c : Affinity) (k : String) → is_found (get c k) ≡ true → length (remove c k) < length c
length-remove_found c k h = go (get c k) refl h
  where
    go :
        (o : Option AffinityEntry)
        → get c k ≡ o
        → is_found o ≡ true
        → length (remove c k) < length c
    go none e t = absurd (ground arith)
    go (some v) e t = length-remove-lt c k v e

drop_oldest_le : (c : Affinity) → NoBlank c → length c ≤ 4097 → length (drop_oldest c) ≤ 4096
unfolding drop_oldest oldest_from
drop_oldest_le [] h le = omega arith
drop_oldest_le ((k, e) ∷ rest) h le =
    let c : Affinity = (k, e) ∷ rest in
    let z : String = oldest_from "" 0 c in
    ground (
      arith,
      length-remove_found c z (oldest_found k e rest h),
      oldest_found k e rest h,
      get_blank c h,
      eq_iff z "",
    )

remove-NoBlank : (c : Affinity) (k : String) → NoBlank c → NoBlank (remove c k)
unfolding remove
remove-NoBlank [] k h = tt
remove-NoBlank ((j, e) ∷ rest) k h = ground (arith, remove-NoBlank rest k h.1)

put-NoBlank :
    (c : Affinity) (k : String) (e : AffinityEntry)
    → (k == "") ≡ false
    → NoBlank c
    → NoBlank (put c k e)
unfolding put
put-NoBlank [] k e n h = (n, tt)
put-NoBlank ((j, f) ∷ rest) k e n h = ground (arith, put-NoBlank rest k e n h.1)

-- One client's successful request after the other, each binding its session to an account.
unfoldable pub bind_all : List (ℕ × String × String) → Affinity → Affinity
unfolding bind_session_affinity
bind_all [] c = c
bind_all ((now, key, account_id) ∷ rest) c =
    bind_all rest (bind_session_affinity now key account_id c)

drop_oldest-NoBlank : (c : Affinity) → NoBlank c → NoBlank (drop_oldest c)
unfolding drop_oldest
drop_oldest-NoBlank c h = go _ _ (remove-NoBlank c (oldest_from "" 0 c) h)
  where
    go : (t : Bool) (d : Affinity) → NoBlank d → NoBlank (if t then c else d)
    go true d p = h
    go false d p = p

bind_all-bounded :
    (calls : List (ℕ × String × String)) (c : Affinity)
    → NoBlank c
    → length c ≤ 4096
    → length (bind_all calls c) ≤ 4096
unfolding bind_all bind_session_affinity
bind_all-bounded [] c h le = le
bind_all-bounded ((now, key, account_id) ∷ rest) c h le =
    let e : AffinityEntry = record { account_id = trim account_id; accessed_at = now } in
    elim (Bool-cases (trim key == "" || trim account_id == "")) [
      | inl t ↦ rw t (bind_all-bounded rest c h le)
      | inr t ↦
          let n : NoBlank (put c (trim key) e) = put-NoBlank c (trim key) e (ground arith) h in
          rw t (
            bind_all-bounded rest (drop_oldest (put c (trim key) e)) (drop_oldest-NoBlank _ n)
              (drop_oldest_le _ n (omega (arith, length-put-le c (trim key) e))))
    ]

-- However many sessions are bound, a map that starts empty keeps at most 4096 of them.
pub length-bind_all-le : (calls : List (ℕ × String × String)) → length (bind_all calls []) ≤ 4096
length-bind_all-le calls = bind_all-bounded calls [] tt (omega arith)

abbrev IfUsable : (String → Type 0) → Option String → Type 0
IfUsable P none = Unit
IfUsable P (some a) = P a

if_usable :
    (P : String → Type 0) (t : Bool) (x y : Option String × Affinity)
    → (t ≡ true → IfUsable P x.0)
    → (t ≡ false → IfUsable P y.0)
    → IfUsable P (if t then x else y).0
if_usable P true x y p q = p refl
if_usable P false x y p q = q refl

abbrev ServesMessages : Accounts → String → (String → Bool) → String → Type 0
ServesMessages w model exclude a =
    (exclude a ≡ false) × (w.is_model_blocked a model ≡ false) × (w.is_running a ≡ true)

lookup_messages-serves :
    (w : Accounts) (now : ℕ) (model : String) (exclude : String → Bool) (key : String)
    (o : Option AffinityEntry) (c : Affinity)
    → IfUsable (ServesMessages w model exclude) (lookup_messages w now model exclude key o c).0
lookup_messages-serves w now model exclude key none c = tt
lookup_messages-serves w now model exclude key (some e) c =
    if_usable _ (ltb 21600000000000 (now - e.accessed_at)) _ _ (λ t. tt)
      (λ t.
        if_usable _ (exclude e.account_id) _ _ (λ x. tt)
          (λ x.
            if_usable _ (w.is_model_blocked e.account_id model || not (w.is_running e.account_id)) _
              _ (λ y. tt) (λ y. (x, ground arith, ground arith))))

-- The account that a messages session is bound to is used only if it is not excluded, the model is
-- not blocked on it, and it is running.
pub lookup_messages_session_affinity_serves :
    (w : Accounts) (now : ℕ) (key model : String) (exclude : String → Bool) (c : Affinity)
    (a : String)
    → (lookup_messages_session_affinity w now key model exclude c).0 ≡ some a
    → (exclude a ≡ false) × (w.is_model_blocked a model ≡ false) × (w.is_running a ≡ true)
unfolding lookup_messages_session_affinity
lookup_messages_session_affinity_serves w now key model exclude c a e =
    subst (IfUsable (ServesMessages w model exclude)) e (
      if_usable _ (trim key == "") _ _ (λ t. tt)
        (λ t. lookup_messages-serves w now model exclude (trim key) (get c (trim key)) c))

abbrev ServesResponses : Accounts → String → (String → Bool) → String → Type 0
ServesResponses w model exclude a =
    (exclude a ≡ false)
    × (w.is_model_blocked a model ≡ false)
    × (w.is_enabled a ≡ true)
    × (w.is_running a ≡ true)

lookup_responses-serves :
    (w : Accounts) (now : ℕ) (model : String) (exclude : String → Bool) (key : String)
    (o : Option AffinityEntry) (c : Affinity)
    → IfUsable (ServesResponses w model exclude) (lookup_responses w now model exclude key o c).0
lookup_responses-serves w now model exclude key none c = tt
lookup_responses-serves w now model exclude key (some e) c =
    if_usable _ (ltb 21600000000000 (now - e.accessed_at)) _ _ (λ t. tt)
      (λ t.
        if_usable _ (exclude e.account_id) _ _ (λ x. tt)
          (λ x.
            if_usable _
              (w.is_model_blocked e.account_id model
                || (not (w.is_enabled e.account_id) || not (w.is_running e.account_id)))
              _ _ (λ y. tt) (λ y. (x, ground arith, ground arith, ground arith))))

-- The account that a responses session is bound to is used only if it is not excluded, the model is
-- not blocked on it, and it is enabled and running.
pub lookup_responses_session_affinity_serves :
    (w : Accounts) (now : ℕ) (key model : String) (exclude : String → Bool) (c : Affinity)
    (a : String)
    → (lookup_responses_session_affinity w now key model exclude c).0 ≡ some a
    → (exclude a ≡ false)
      × (w.is_model_blocked a model ≡ false)
      × (w.is_enabled a ≡ true)
      × (w.is_running a ≡ true)
unfolding lookup_responses_session_affinity
lookup_responses_session_affinity_serves w now key model exclude c a e =
    subst (IfUsable (ServesResponses w model exclude)) e (
      if_usable _ (trim key == "") _ _ (λ t. tt)
        (λ t. lookup_responses-serves w now model exclude (trim key) (get c (trim key)) c))
