-- ===== src/Instance/Turns/Cache.antt =====
-- instance/copilot_turns.go: the cache entries, and storing, loading, pruning and evicting them.
pub mod Bounds
pub mod Laws
use copilot_pool_gateway.Base.{
  ℕ, ◌-◌, String, Bool, true, false, not, ◌||◌, List, [], ◌∷◌, Option, none, some, ◌==◌,
  if◌then◌else◌, ltb, leb, length, trim,
}
use copilot_pool_gateway.Base.StringMap.{StringMap, get, put, remove, retain}
use copilot_pool_gateway.Instance.Turns.{TurnContext}

-- copilotTurnCacheTTL, copilotTurnCacheMaxEntries
abbrev pub turn_cache_ttl : ℕ
turn_cache_ttl = 1800000000000

abbrev pub turn_cache_max_entries : ℕ
turn_cache_max_entries = 1024

-- copilotTurnCacheEntry
pub record TurnEntry : Type 0 where
  pub account_id : String
  pub context : TurnContext
  pub created_at : ℕ
  pub accessed_at : ℕ

abbrev pub TurnCache : Type 0
TurnCache = StringMap TurnEntry

abbrev pub is_fresh : ℕ → String × TurnEntry → Bool
is_fresh now (key, e) = leb (now - e.created_at) turn_cache_ttl

-- The keys by their last access, as `sort.Slice` orders them.
insert_key : String × ℕ → List (String × ℕ) → List (String × ℕ)
insert_key k [] = k ∷ []
insert_key k (j ∷ rest) =
    let later = insert_key k rest in if ltb j.1 k.1 then j ∷ later else k ∷ j ∷ rest

unfoldable pub sorted_keys : TurnCache → List (String × ℕ)
unfolding insert_key
sorted_keys [] = []
sorted_keys ((key, e) ∷ rest) = insert_key (key, e.accessed_at) (sorted_keys rest)

-- The last loop: the oldest entries go until the bound holds.
unfoldable pub drop_oldest : List (String × ℕ) → TurnCache → TurnCache
drop_oldest [] entries = entries
drop_oldest ((key, at) ∷ keys) entries =
    let smaller = drop_oldest keys (remove entries key) in
    if ltb turn_cache_max_entries (length entries) then smaller else entries

-- pruneCopilotTurnCacheLocked
unfoldable pub prune : ℕ → TurnCache → TurnCache
unfolding sorted_keys drop_oldest
prune now entries =
    let fresh = retain (is_fresh now) entries in
    if leb (length fresh) turn_cache_max_entries
    then fresh
    else drop_oldest (sorted_keys fresh) fresh

-- storeCopilotTurnCacheEntry
unfoldable pub store_entry : ℕ → String → String → TurnContext → TurnCache → TurnCache
unfolding prune
store_entry now key account_id ctx entries =
    let entry : TurnEntry = record {
      account_id = trim account_id;
      context = ctx;
      created_at = now;
      accessed_at = now;
    } in
    if trim key == "" || trim account_id == ""
    then entries
    else prune now (put (prune now entries) (trim key) entry)

abbrev load_from :
    ℕ → String → String → Option TurnEntry → TurnCache → Option TurnContext × TurnCache
load_from now key account_id none entries = (none, entries)
load_from now key account_id (some e) entries =
    if e.account_id == account_id
    then (some e.context, put entries key (record e { accessed_at = now }))
    else (none, entries)

-- loadCopilotTurnCacheEntry
unfoldable pub load_entry : ℕ → String → String → TurnCache → Option TurnContext × TurnCache
unfolding prune
load_entry now key account_id entries =
    let pruned = prune now entries in
    if trim key == "" || trim account_id == ""
    then (none, entries)
    else load_from now (trim key) (trim account_id) (get pruned (trim key)) pruned

abbrev pub account_from : ℕ → String → Option TurnEntry → TurnCache → Option String × TurnCache
account_from now key none entries = (none, entries)
account_from now key (some e) entries =
    (some e.account_id, put entries key (record e { accessed_at = now }))

-- lookupCopilotTurnCacheAccount
unfoldable pub lookup_account : ℕ → String → TurnCache → Option String × TurnCache
unfolding prune
lookup_account now key entries =
    let pruned = prune now entries in
    if trim key == ""
    then (none, entries)
    else account_from now (trim key) (get pruned (trim key)) pruned

-- evictCopilotTurnCacheForAccountLocked: the number of the entries that go, and the others.
unfoldable pub evict_account : String → TurnCache → ℕ × TurnCache
evict_account account_id entries =
    let kept = retain (λ (key, e). not (e.account_id == account_id)) entries in
    (length entries - length kept, kept)
