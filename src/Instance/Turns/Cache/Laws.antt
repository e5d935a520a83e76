-- ===== src/Instance/Turns/Cache/Laws.antt =====
-- Storing, loading and evicting, together.
use copilot_pool_gateway.Base.{
  ℕ, ◌+◌, ◌≤◌, ◌<◌, String, ◌≡◌, refl, ap, ◌∙◌, Bool, true, false, ◌||◌, List, [], ◌∷◌, Option,
  none, some, arith, ◌==◌, eq_refl, if◌then◌else◌, ltb, leb, length, trim, Bool-cases, inl, inr,
  length-keep-le,
}
use copilot_pool_gateway.Base.StringMap.{
  get, put, remove, retain, Distinct, get-put, get-retain, put-Distinct, remove-Distinct,
  retain-Distinct, length-put-le,
}
use copilot_pool_gateway.Instance.Turns.{TurnContext}
use copilot_pool_gateway.Instance.Turns.Cache.{
  TurnCache, TurnEntry, is_fresh, drop_oldest, prune, store_entry, load_entry, load_from,
  lookup_account, account_from, evict_account,
}
use copilot_pool_gateway.Instance.Turns.Cache.Bounds.{length-prune-le}

-- One call on a cache, at a time.
pub data CacheCall : Type 0 where
  store_call : ℕ → String → String → TurnContext → CacheCall
  load_call : ℕ → String → String → CacheCall
  lookup_call : ℕ → String → CacheCall
  evict_call : String → CacheCall

unfoldable pub cache_step : CacheCall → TurnCache → TurnCache
unfolding store_entry load_entry lookup_account evict_account
cache_step (store_call now key account_id ctx) c = store_entry now key account_id ctx c
cache_step (load_call now key account_id) c = (load_entry now key account_id c).1
cache_step (lookup_call now key) c = (lookup_account now key c).1
cache_step (evict_call account_id) c = (evict_account account_id c).1

pub cache_run : List CacheCall → TurnCache → TurnCache
unfolding cache_step
cache_run [] c = c
cache_run (x ∷ rest) c = cache_run rest (cache_step x c)

abbrev IsBounded : TurnCache → Type 0
IsBounded c = Distinct c × (length c ≤ 1024)

length-put_found :
    (m : TurnCache) (k : String) (v w : TurnEntry)
    → get m k ≡ some v
    → length (put m k w) ≡ length m
unfolding get put
length-put_found [] k v w h = absurd (ground arith)
length-put_found ((i, u) ∷ m) k v w h = ground (arith, length-put_found m k v w)

drop_oldest-Distinct :
    (keys : List (String × ℕ)) (c : TurnCache) → Distinct c → Distinct (drop_oldest keys c)
unfolding drop_oldest
drop_oldest-Distinct [] c d = d
drop_oldest-Distinct ((key, at) ∷ keys) c d = elim (Bool-cases (ltb 1024 (length c))) [
  | inl t ↦ rw t (drop_oldest-Distinct keys (remove c key) (remove-Distinct c key d))
  | inr t ↦ rw t d
]

pub prune-Distinct : (now : ℕ) (c : TurnCache) → Distinct c → Distinct (prune now c)
unfolding prune
prune-Distinct now c d = elim (Bool-cases (leb (length (retain (is_fresh now) c)) 1024)) [
  | inl t ↦ rw t (retain-Distinct (is_fresh now) c d)
  | inr t ↦ rw t (drop_oldest-Distinct _ _ (retain-Distinct (is_fresh now) c d))
]

prune-IsBounded : (now : ℕ) (c : TurnCache) → Distinct c → IsBounded (prune now c)
prune-IsBounded now c d = (prune-Distinct now c d, length-prune-le now c)

if_IsBounded :
    {A : Type 0} (t : Bool) (x y : A × TurnCache)
    → IsBounded x.1
    → IsBounded y.1
    → IsBounded (if t then x else y).1
if_IsBounded true x y p q = p
if_IsBounded false x y p q = q

load_from-IsBounded :
    (now : ℕ) (key account_id : String) (o : Option TurnEntry) (c : TurnCache)
    → get c key ≡ o
    → IsBounded c
    → IsBounded (load_from now key account_id o c).1
load_from-IsBounded now key account_id none c e b = b
load_from-IsBounded now key account_id (some v) c e b =
    let w : TurnEntry = record v { accessed_at = now } in
    if_IsBounded (v.account_id == account_id) _ _
      (put-Distinct c key w b.0, ground (arith, length-put_found c key v w)) b

account_from-IsBounded :
    (now : ℕ) (key : String) (o : Option TurnEntry) (c : TurnCache)
    → get c key ≡ o
    → IsBounded c
    → IsBounded (account_from now key o c).1
account_from-IsBounded now key none c e b = b
account_from-IsBounded now key (some v) c e b = (
  put-Distinct c key (record v { accessed_at = now }) b.0,
  ground (arith, length-put_found c key v (record v { accessed_at = now })),
)

cache_step-IsBounded : (x : CacheCall) (c : TurnCache) → IsBounded c → IsBounded (cache_step x c)
unfolding cache_step store_entry load_entry lookup_account evict_account
cache_step-IsBounded (store_call now key account_id ctx) c b =
    elim (Bool-cases (trim key == "" || trim account_id == "")) [
      | inl t ↦ rw t b
      | inr t ↦
          rw t (prune-IsBounded now _ (put-Distinct _ (trim key) _ (prune-Distinct now c b.0)))
    ]
cache_step-IsBounded (load_call now key account_id) c b =
    if_IsBounded (trim key == "" || trim account_id == "") _ _ b
      (load_from-IsBounded now (trim key) (trim account_id) _ _ refl (prune-IsBounded now c b.0))
cache_step-IsBounded (lookup_call now key) c b =
    if_IsBounded (trim key == "") _ _ b
      (account_from-IsBounded now (trim key) _ _ refl (prune-IsBounded now c b.0))
cache_step-IsBounded (evict_call account_id) c b =
    (retain-Distinct _ c b.0, omega (arith, length-keep-le _ c, b.1))

cache_run-IsBounded :
    (calls : List CacheCall) (c : TurnCache) → IsBounded c → IsBounded (cache_run calls c)
unfolding cache_run
cache_run-IsBounded [] c b = b
cache_run-IsBounded (x ∷ rest) c b = cache_run-IsBounded rest _ (cache_step-IsBounded x c b)

-- Whatever is stored, loaded, looked up and evicted, a cache that starts empty keeps at most 1024
-- entries, with one entry for each key.
pub cache_run_bounded :
    (calls : List CacheCall) → Distinct (cache_run calls []) × (length (cache_run calls []) ≤ 1024)
cache_run_bounded calls = cache_run-IsBounded calls [] (tt, omega arith)

prune_small : (now : ℕ) (c : TurnCache) → length c ≤ 1024 → prune now c ≡ retain (is_fresh now) c
unfolding prune
prune_small now c h = rw (small_enough (omega (arith, length-keep-le (is_fresh now) c, h))) refl
  where
    small_enough :
        length (retain (is_fresh now) c) ≤ 1024 → leb (length (retain (is_fresh now) c)) 1024 ≡ true
    small_enough le = ground arith

get-prune_small :
    (now : ℕ) (c : TurnCache) (k : String) (e : TurnEntry)
    → Distinct c
    → length c ≤ 1024
    → get c k ≡ some e
    → now ≤ e.created_at + 1800000000000
    → get (prune now c) k ≡ some e
get-prune_small now c k e d small h fresh =
    rw (prune_small now c small) (get-retain (is_fresh now) c k d ∙ rw h (kept (ground arith)))
  where
    kept : is_fresh now (k, e) ≡ true → (if is_fresh now (k, e) then some e else none) ≡ some e
    kept t = rw t refl

if_true : {A : Type 0} (b : Bool) (x y : A) → b ≡ true → (if b then x else y) ≡ x
if_true b x y h = rw h refl

if_false : {A : Type 0} (b : Bool) (x y : A) → b ≡ false → (if b then x else y) ≡ y
if_false b x y h = rw h refl

-- What is stored in a cache that is not full and has one entry for each key, under a key and an
-- account that are not blank, is loaded by the same key and account until its time to live has
-- passed.
pub load_entry-store_entry :
    (now later : ℕ) (key account_id : String) (ctx : TurnContext) (c : TurnCache)
    → Distinct c
    → length c < 1024
    → (trim key == "") ≡ false
    → (trim account_id == "") ≡ false
    → later ≤ now + 1800000000000
    → (load_entry later key account_id (store_entry now key account_id ctx c)).0 ≡ some ctx
unfolding load_entry store_entry
load_entry-store_entry now later key account_id ctx c d small k a fresh =
    let e : TurnEntry = record {
      account_id = trim account_id;
      context = ctx;
      created_at = now;
      accessed_at = now;
    } in
    let before : TurnCache = put (prune now c) (trim key) e in
    let named : (trim key == "" || trim account_id == "") ≡ false = ground arith in
    let before_Distinct : Distinct before = put-Distinct _ (trim key) e (prune-Distinct now c d) in
    let fits : length before ≤ 1024 = omega (
      arith,
      length-put-le (prune now c) (trim key) e,
      length-keep-le (is_fresh now) c,
      ap length (prune_small now c (omega arith)),
    ) in
    let here : get before (trim key) ≡ some e =
      get-put (prune now c) (trim key) (trim key) e ∙ if_true _ _ _ (eq_refl (trim key)) in
    let stored : get (prune now before) (trim key) ≡ some e =
      get-prune_small now before (trim key) e before_Distinct fits here (omega arith) in
    let found : get (prune later (prune now before)) (trim key) ≡ some e =
      get-prune_small later (prune now before) (trim key) e
        (prune-Distinct now before before_Distinct) (length-prune-le now before) stored fresh in
    let loaded : TurnCache → Option TurnEntry → Option TurnContext =
      λ x o. (load_from later (trim key) (trim account_id) o x).0 in
    ap (λ (r : Option TurnContext × TurnCache). r.0) (if_false _ _ _ named)
    ∙ ap (λ x. loaded (prune later x) (get (prune later x) (trim key))) (if_false _ _ _ named)
    ∙ ap (loaded (prune later (prune now before))) found
    ∙ ap (λ (r : Option TurnContext × TurnCache). r.0) (if_true _ _ _ (eq_refl (trim account_id)))
