-- ===== src/Handler/Routing.antt =====
-- handler/proxy.go: proxyAuth, and the account that an attempt of a request goes to. An account
-- stands for its resolvedAccount: the State is the one that its instance has.
pub mod Serves
use copilot_pool_gateway.Base.{
  ℕ, String, Bool, true, false, not, ◌||◌, ◌&&◌, List, [], Option, none, some, ◌==◌, if◌then◌else◌,
  trim, to_lower, exists, map, keep, has_prefix, trim_prefix,
}
use copilot_pool_gateway.Base.StringMap.{get}
use copilot_pool_gateway.Store.Disk.{Result}
use copilot_pool_gateway.Store.Account.{Account}
use copilot_pool_gateway.Store.Account.Lookup.{
  get_account, get_account_by_api_key, get_enabled_accounts,
}
use copilot_pool_gateway.Store.Account.Models.{is_model_blocked, get_blocked_account_ids}
use copilot_pool_gateway.Store.Pool.{get_pool_config}
use copilot_pool_gateway.Instance.LoadBalancer.{select_account}
use copilot_pool_gateway.Instance.Registry.{get_instance_state}
use copilot_pool_gateway.Handler.Affinity.{
  Affinity, lookup_responses_session_affinity, bind_session_affinity,
}
use copilot_pool_gateway.Handler.Gateway.{Gateway, Env, accounts_of, has_running_instance}

-- What the client gets: an error of the gateway, or an account's answer with its status.
pub data Reply : Type 0 where
  failure : ℕ → String → Reply
  forwarded : String → ℕ → Reply

-- Whom a request may use.
pub data Caller : Type 0 where
  in_pool : String → Caller
  as_account : String → Caller

abbrev authorization : String → String → String
authorization auth_header api_key =
    if auth_header == "" && not (api_key == "")
    then Prim.Native.String.◌++◌ "Bearer " api_key
    else auth_header

abbrev by_account : Result (Option Account) → Option Caller
by_account (Result.ok (some a)) = some (as_account a.id)
by_account (Result.ok none) = none
by_account (Result.err e) = none

-- proxyAuth, with the two headers; `none` is status 401.
unfoldable pub proxy_auth : String → String → Gateway → Option Caller
unfolding get_pool_config
proxy_auth auth_header api_key g =
    let header = authorization auth_header api_key in
    let token = trim_prefix "Bearer " header in
    let pool = get_pool_config g.pool in
    if header == ""
    then none
    else if pool.enabled && pool.api_key == token
    then some (in_pool pool.strategy)
    else by_account (get_account_by_api_key token g.accounts).0

abbrev pub is_pool : Caller → Bool
is_pool (in_pool strategy) = true
is_pool (as_account id) = false

pub data Resolved : Type 0 where
  found : String → Resolved
  refused : ℕ → String → Resolved

abbrev pub member : String → List String → Bool
member id = exists (λ e. e == id)

abbrev is_blocked : Option Bool → Bool
is_blocked none = false
is_blocked (some b) = true

-- `combinedExclude`
abbrev pub combined_exclude : List String → String → Gateway → String → Bool
combined_exclude exclude model g id =
    member id exclude || is_blocked (get (get_blocked_account_ids g.accounts model) id)

abbrev remember : Env → String → String → Gateway → Gateway
remember env key id g =
    if key == ""
    then g
    else record g { responses_affinity = bind_session_affinity env.now key id g.responses_affinity }

abbrev selected : Env → String → Result (Option Account) → Gateway → Resolved × Gateway
selected env key (Result.err e) g = (refused 503 "no available accounts in pool", g)
selected env key (Result.ok none) g = (refused 503 "no available accounts in pool", g)
selected env key (Result.ok (some a)) g =
    if get_instance_state a.id g.instances
    then (found a.id, remember env key a.id g)
    else (refused 503 "selected account instance not running", g)

abbrev pub select_in_pool : Env → String → String → (String → Bool) → Gateway → Resolved × Gateway
select_in_pool env key strategy exclude g =
    let (result, b) =
      select_account strategy exclude (has_running_instance g) env.now g.accounts g.balancer in
    selected env key result (record g { balancer = b })

abbrev or_select :
    Env
    → String
    → String
    → (String → Bool)
    → Option String × Affinity
    → Gateway
    → Resolved × Gateway
or_select env key strategy exclude (some id, m) g = (found id, record g { responses_affinity = m })
or_select env key strategy exclude (none, m) g =
    select_in_pool env key strategy exclude (record g { responses_affinity = m })

unfoldable pub resolve_in_pool :
    Env → String → String → (String → Bool) → String → Gateway → Resolved × Gateway
resolve_in_pool env key strategy exclude model g =
    if key == ""
    then select_in_pool env key strategy exclude g
    else or_select env key strategy exclude
        (lookup_responses_session_affinity (accounts_of g) env.now key model exclude
          g.responses_affinity)
        g

-- The case of one account.
unfoldable pub resolve_account : String → String → Gateway → Resolved
resolve_account model id g =
    if is_model_blocked g.accounts id model
    then refused 503 "account is paused for the model"
    else if get_instance_state id g.instances
    then found id
    else refused 503 "account instance not running"

-- resolveState: `key` is the key of the responses' affinity, or empty.
unfoldable pub resolve_state :
    Env → Caller → String → List String → String → Gateway → Resolved × Gateway
unfolding resolve_in_pool resolve_account
resolve_state env (in_pool strategy) key exclude model g =
    resolve_in_pool env key strategy (combined_exclude exclude model g) model g
resolve_state env (as_account id) key exclude model g = (resolve_account model id g, g)

-- resolveKnownAccount
unfoldable pub resolve_known_account : String → String → Gateway → Option String
resolve_known_account account_id model g =
    let id = trim account_id in
    if id == "" || (is_model_blocked g.accounts id model || not (get_instance_state id g.instances))
    then none
    else some id
