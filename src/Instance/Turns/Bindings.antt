-- ===== src/Instance/Turns/Bindings.antt =====
-- instance/continuation_metadata_sqlite.go: the table `continuation_bindings`, as far as its SQL
-- statements go, and the operations of instance/copilot_turns.go on a cache and its rows. There is
-- one `TurnStore` for each of the three kinds of identifiers. `Metadata` is what SQLite does
-- during a call.
pub mod Evicted
use copilot_pool_gateway.Base.{
  ℕ, ◌+◌, ◌/◌, String, Bool, true, false, not, ◌||◌, ◌&&◌, List, [], ◌∷◌, Option, none, some, ◌==◌,
  if◌then◌else◌, leb, ltb, trim,
}
use copilot_pool_gateway.Base.StringMap.{StringMap, get, put, retain}
use copilot_pool_gateway.Instance.Turns.{TurnContext, unique_trimmed}
use copilot_pool_gateway.Instance.Turns.Cache.{
  TurnCache, TurnEntry, store_entry, load_entry, lookup_account, evict_account,
}

-- continuationBindingRecord; the times are in seconds.
pub record Binding : Type 0 where
  pub account_id : String
  pub context : TurnContext
  pub created : ℕ
  pub last_seen : ℕ
  pub expires : ℕ

pub record Metadata : Type 0 where
  -- continuationMetadataEnabled
  pub enabled : Bool
  -- the database opens, a query answers, a statement lands
  pub opens : Bool
  pub reads : Bool
  pub writes : Bool
  -- config.ContinuationMetadataRetention
  pub retention : ℕ

pub record TurnStore : Type 0 where
  pub entries : TurnCache
  pub bindings : StringMap Binding

abbrev pub unix : ℕ → ℕ
unix now = now / 1000000000

abbrev trim_context : TurnContext → TurnContext
trim_context ctx = record {
  interaction_id = trim ctx.interaction_id;
  client_session_id = trim ctx.client_session_id;
  agent_task_id = trim ctx.agent_task_id;
}

-- storeContinuationBinding, upsertContinuationBinding
unfoldable pub store_binding :
    Metadata → ℕ → String → String → TurnContext → StringMap Binding → StringMap Binding
store_binding md now id account_id ctx rows =
    if not (md.opens && md.writes) || id == "" || trim account_id == ""
    then rows
    else put rows id (record {
      account_id = trim account_id;
      context = trim_context ctx;
      created = unix now;
      last_seen = unix now;
      expires = unix (now + md.retention);
    })

abbrev seen_row :
    Bool → ℕ → String → Option Binding → StringMap Binding → Option Binding × StringMap Binding
seen_row writes now id none rows = (none, rows)
seen_row writes now id (some b) rows =
    if ltb b.expires (unix now)
    then (none, rows)
    else (some b, if writes then put rows id (record b { last_seen = unix now }) else rows)

-- lookupContinuationBinding
unfoldable pub lookup_binding :
    Metadata → ℕ → String → StringMap Binding → Option Binding × StringMap Binding
lookup_binding md now id rows =
    if md.opens && md.reads then seen_row md.writes now id (get rows id) rows else (none, rows)

-- storeCopilotTurnCacheEntry, and storeContinuationBinding where the metadata is enabled.
unfoldable pub store_turn : Metadata → ℕ → String → String → TurnContext → TurnStore → TurnStore
unfolding store_entry store_binding
store_turn md now id account_id ctx s = record {
  entries = store_entry now id account_id ctx s.entries;
  bindings = if md.enabled then store_binding md now id account_id ctx s.bindings else s.bindings;
}

-- storeResponseTurnContext
unfoldable pub store_response_turn_context :
    Metadata → ℕ → String → String → TurnContext → TurnStore → TurnStore
unfolding store_turn
store_response_turn_context md now account_id response_id ctx s =
    if trim response_id == "" then s else store_turn md now (trim response_id) account_id ctx s

unfoldable pub store_turns :
    Metadata → ℕ → String → List String → TurnContext → TurnStore → TurnStore
unfolding store_turn
store_turns md now account_id [] ctx s = s
store_turns md now account_id (id ∷ ids) ctx s =
    store_turns md now account_id ids ctx (store_turn md now id account_id ctx s)

-- storeResponseFunctionCallTurnContext, storeMessageToolCallTurnContext and
-- stashResponseFunctionCallTurnContextInMemory
unfoldable pub store_call_turn_context :
    Metadata → ℕ → String → List String → TurnContext → TurnStore → TurnStore
unfolding store_turns unique_trimmed
store_call_turn_context md now account_id call_ids ctx s =
    store_turns md now account_id (unique_trimmed call_ids) ctx s

-- A row of the account brings its entry back into the cache.
abbrev restored :
    ℕ
    → String
    → String
    → Option Binding × StringMap Binding
    → TurnCache
    → Option TurnContext × TurnStore
restored now id account_id (none, rows) entries =
    (none, record { entries = entries; bindings = rows })
restored now id account_id (some b, rows) entries =
    if b.account_id == trim account_id
    then (
      some b.context,
      record { entries = store_entry now id account_id b.context entries; bindings = rows },
    )
    else (none, record { entries = entries; bindings = rows })

abbrev or_row :
    Metadata
    → ℕ
    → String
    → String
    → Option TurnContext × TurnCache
    → TurnStore
    → Option TurnContext × TurnStore
or_row md now id account_id (some ctx, entries) s = (some ctx, record s { entries = entries })
or_row md now id account_id (none, entries) s =
    if md.enabled
    then restored now id account_id (lookup_binding md now id s.bindings) entries
    else (none, record s { entries = entries })

-- loadResponseTurnContext
unfoldable pub load_turn :
    Metadata → ℕ → String → String → TurnStore → Option TurnContext × TurnStore
unfolding load_entry lookup_binding store_entry
load_turn md now account_id id s =
    or_row md now id account_id (load_entry now id account_id s.entries) s

abbrev or_next :
    Option TurnContext × TurnStore
    → (TurnStore → Option TurnContext × TurnStore)
    → Option TurnContext × TurnStore
or_next (some ctx, s) next = (some ctx, s)
or_next (none, s) next = next s

unfoldable pub load_first :
    Metadata → ℕ → String → List String → TurnStore → Option TurnContext × TurnStore
unfolding load_turn
load_first md now account_id [] s = (none, s)
load_first md now account_id (id ∷ ids) s =
    or_next (load_turn md now account_id id s) (load_first md now account_id ids)

-- loadResponseFunctionCallTurnContext, loadMessageToolCallTurnContext
unfoldable pub load_call_turn_context :
    Metadata → ℕ → String → List String → TurnStore → Option TurnContext × TurnStore
unfolding load_first unique_trimmed
load_call_turn_context md now account_id call_ids s =
    load_first md now account_id (unique_trimmed call_ids) s

abbrev account_restored :
    ℕ → String → Option Binding × StringMap Binding → TurnCache → Option String × TurnStore
account_restored now id (none, rows) entries = (none, record { entries = entries; bindings = rows })
account_restored now id (some b, rows) entries = (
  some b.account_id,
  record { entries = store_entry now id b.account_id b.context entries; bindings = rows },
)

abbrev account_or_row :
    Metadata → ℕ → String → Option String × TurnCache → TurnStore → Option String × TurnStore
account_or_row md now id (some account_id, entries) s =
    (some account_id, record s { entries = entries })
account_or_row md now id (none, entries) s =
    if md.enabled
    then account_restored now id (lookup_binding md now id s.bindings) entries
    else (none, record s { entries = entries })

-- LookupResponseTurnAccount
unfoldable pub lookup_turn_account : Metadata → ℕ → String → TurnStore → Option String × TurnStore
unfolding lookup_account lookup_binding store_entry
lookup_turn_account md now id s = account_or_row md now id (lookup_account now id s.entries) s

abbrev or_next_account :
    Option String × TurnStore → (TurnStore → Option String × TurnStore) → Option String × TurnStore
or_next_account (some id, s) next = (some id, s)
or_next_account (none, s) next = next s

unfoldable pub lookup_first_account :
    Metadata → ℕ → List String → TurnStore → Option String × TurnStore
unfolding lookup_turn_account
lookup_first_account md now [] s = (none, s)
lookup_first_account md now (id ∷ ids) s =
    or_next_account (lookup_turn_account md now id s) (lookup_first_account md now ids)

-- LookupResponseFunctionCallAccount, LookupMessageToolCallAccount
unfoldable pub lookup_call_account :
    Metadata → ℕ → List String → TurnStore → Option String × TurnStore
unfolding lookup_first_account unique_trimmed
lookup_call_account md now call_ids s = lookup_first_account md now (unique_trimmed call_ids) s

-- The turns' part of EvictAccountContinuationCaches, for an account that is not blank.
unfoldable pub evict_turns : Metadata → String → TurnStore → ℕ × TurnStore
unfolding evict_account
evict_turns md account_id s =
    let (evicted, entries) = evict_account account_id s.entries in
    (
      evicted,
      record {
        entries = entries;
        bindings =
            if md.enabled && md.opens && md.writes
            then retain (λ (id, b). not (b.account_id == account_id)) s.bindings
            else s.bindings;
      },
    )
