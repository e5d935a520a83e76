-- ===== src/Handler/Affinity.antt =====
-- handler/messages_session_affinity.go, and the same maps of handler/responses_session_affinity.go
-- without their telemetry: which account a client session last used. Times are numbers of
-- nanoseconds. `Accounts` is what the store and the registry answer: IsModelBlocked, whether
-- GetAccount has an enabled account, and GetInstanceState.
pub mod Laws
use copilot_pool_gateway.Base.{
  ℕ, ◌-◌, String, Bool, true, false, not, ◌&&◌, ◌||◌, List, [], ◌∷◌, Option, none, some, ◌==◌,
  if◌then◌else◌, ltb, leb, length, trim,
}
use copilot_pool_gateway.Base.StringMap.{StringMap, get, put, remove}

-- messagesSessionAffinityTTL and messagesSessionAffinityMaxEntries, which the responses share
abbrev pub affinity_ttl : ℕ
affinity_ttl = 21600000000000

abbrev pub affinity_max_entries : ℕ
affinity_max_entries = 4096

pub record AffinityEntry : Type 0 where
  pub account_id : String
  pub accessed_at : ℕ

abbrev pub Affinity : Type 0
Affinity = StringMap AffinityEntry

pub record Accounts : Type 0 where
  pub is_model_blocked : String → String → Bool
  pub is_enabled : String → Bool
  pub is_running : String → Bool

-- The loop for the oldest entry; the first one counts while the key is still blank.
unfoldable pub oldest_from : String → ℕ → Affinity → String
oldest_from oldest_key oldest [] = oldest_key
oldest_from oldest_key oldest ((k, e) ∷ rest) =
    if oldest_key == "" || ltb e.accessed_at oldest
    then oldest_from k e.accessed_at rest
    else oldest_from oldest_key oldest rest

-- With the new entry in the map.
unfoldable pub drop_oldest : Affinity → Affinity
unfolding oldest_from
drop_oldest entries =
    let oldest_key = oldest_from "" 0 entries in
    if leb (length entries) affinity_max_entries || oldest_key == ""
    then entries
    else remove entries oldest_key

-- bindMessagesSessionAffinity, rememberResponsesSessionAffinity
unfoldable pub bind_session_affinity : ℕ → String → String → Affinity → Affinity
unfolding drop_oldest
bind_session_affinity now key account_id entries =
    if trim key == "" || trim account_id == ""
    then entries
    else drop_oldest
        (put entries (trim key) (record { account_id = trim account_id; accessed_at = now }))

abbrev forget_entry : String → String → Option AffinityEntry → Affinity → Affinity
forget_entry key account_id none entries = entries
forget_entry key account_id (some e) entries =
    if account_id == "" || e.account_id == account_id then remove entries key else entries

-- forgetMessagesSessionAffinity
unfoldable pub forget_messages_session_affinity : String → String → Affinity → Affinity
forget_messages_session_affinity key account_id entries =
    if trim key == ""
    then entries
    else forget_entry (trim key) account_id (get entries (trim key)) entries

abbrev forget_same : String → String → Option AffinityEntry → Affinity → Affinity
forget_same key account_id none entries = entries
forget_same key account_id (some e) entries =
    if e.account_id == account_id then remove entries key else entries

-- forgetResponsesSessionAffinity
unfoldable pub forget_responses_session_affinity : String → String → Affinity → Affinity
forget_responses_session_affinity key account_id entries =
    forget_same key account_id (get entries key) entries

-- What follows the unlock in lookupMessagesSessionAffinity.
abbrev usable_messages :
    Accounts → String → (String → Bool) → String → String → Affinity → Option String × Affinity
usable_messages w model exclude key account_id entries =
    if exclude account_id
    then (none, entries)
    else if w.is_model_blocked account_id model || not (w.is_running account_id)
    then (none, forget_messages_session_affinity key account_id entries)
    else (some account_id, entries)

abbrev lookup_messages :
    Accounts
    → ℕ
    → String
    → (String → Bool)
    → String
    → Option AffinityEntry
    → Affinity
    → Option String × Affinity
lookup_messages w now model exclude key none entries = (none, entries)
lookup_messages w now model exclude key (some e) entries =
    if ltb affinity_ttl (now - e.accessed_at)
    then (none, remove entries key)
    else usable_messages w model exclude key e.account_id
        (put entries key (record e { accessed_at = now }))

-- lookupMessagesSessionAffinity: the account to use, if there is one.
unfoldable pub lookup_messages_session_affinity :
    Accounts → ℕ → String → String → (String → Bool) → Affinity → Option String × Affinity
unfolding forget_messages_session_affinity
lookup_messages_session_affinity w now key model exclude entries =
    if trim key == ""
    then (none, entries)
    else lookup_messages w now model exclude (trim key) (get entries (trim key)) entries

abbrev usable_responses :
    Accounts → String → (String → Bool) → String → String → Affinity → Option String × Affinity
usable_responses w model exclude key account_id entries =
    if exclude account_id
    then (none, entries)
    else if w.is_model_blocked account_id model
        || (not (w.is_enabled account_id) || not (w.is_running account_id))
    then (none, forget_responses_session_affinity key account_id entries)
    else (some account_id, entries)

abbrev lookup_responses :
    Accounts
    → ℕ
    → String
    → (String → Bool)
    → String
    → Option AffinityEntry
    → Affinity
    → Option String × Affinity
lookup_responses w now model exclude key none entries = (none, entries)
lookup_responses w now model exclude key (some e) entries =
    if ltb affinity_ttl (now - e.accessed_at)
    then (none, remove entries key)
    else usable_responses w model exclude key e.account_id
        (put entries key (record e { accessed_at = now }))

-- lookupResponsesSessionAffinity
unfoldable pub lookup_responses_session_affinity :
    Accounts → ℕ → String → String → (String → Bool) → Affinity → Option String × Affinity
unfolding forget_responses_session_affinity
lookup_responses_session_affinity w now key model exclude entries =
    if trim key == ""
    then (none, entries)
    else lookup_responses w now model exclude (trim key) (get entries (trim key)) entries
