-- ===== src/Handler/Gateway.antt =====
-- The state that a request of handler/proxy.go runs on: the stores, the instances, the balancer,
-- the limits, the affinities and the caches together; and the operations that touch several of
-- them. A request reads the clock, the environment and the database's state once.
pub mod Disabled
use Prim.Native.String.{◌++◌ as ◌⧺◌}
use copilot_pool_gateway.Base.{
  ℕ, String, Bool, true, false, List, [], ◌∷◌, Option, none, some, ◌==◌, if◌then◌else◌, trim, first,
  eqb, ◌||◌, leb, ◌&&◌,
}
use copilot_pool_gateway.Store.Disk.{Disk, Result, contents}
use copilot_pool_gateway.Store.Account.{Account, has_id}
use copilot_pool_gateway.Store.Account.Models.{is_model_blocked, block_model_for_account}
use copilot_pool_gateway.Store.Account.Update.{update_account, flag}
use copilot_pool_gateway.Store.Pool.{PoolFile}
use copilot_pool_gateway.Instance.Usage.{record_request}
use copilot_pool_gateway.Instance.LoadBalancer.{Balancer}
use copilot_pool_gateway.Instance.RateLimiter.{RateLimiterManager, check_rate_limit}
use copilot_pool_gateway.Instance.Turns.Bindings.{Metadata, TurnStore, evict_turns}
use copilot_pool_gateway.Instance.Replay.{ReplayStore, evict_replay}
use copilot_pool_gateway.Instance.Registry.{
  Registry, get_instance_state, get_instance_status, is_running_status, set_account_error,
}
use copilot_pool_gateway.Handler.Affinity.{Affinity, Accounts}

pub record Gateway : Type 0 where
  pub accounts : Disk Account
  pub pool : PoolFile
  pub instances : Registry
  pub balancer : Balancer
  pub limits : RateLimiterManager
  pub messages_affinity : Affinity
  pub responses_affinity : Affinity
  pub response_turns : TurnStore
  pub function_call_turns : TurnStore
  pub tool_call_turns : TurnStore
  pub replay : ReplayStore

pub record Env : Type 0 where
  pub now : ℕ
  pub metadata : Metadata
  -- `config.OrphanPassthrough() == "off"`
  pub orphan_passthrough_off : Bool
  -- `config.ResponsesOrphanTranslate() == "on"`
  pub responses_orphan_translate_on : Bool

abbrev enabled_in : Option Account → Bool
enabled_in none = false
enabled_in (some a) = a.enabled

abbrev enabled_among : String → Option (List Account) → Bool
enabled_among id none = false
enabled_among id (some accounts) = enabled_in (first (has_id id) accounts)

-- What the affinities ask the store and the registry.
abbrev pub accounts_of : Gateway → Accounts
accounts_of g = record {
  is_model_blocked = is_model_blocked g.accounts;
  is_enabled = λ id. enabled_among id (contents g.accounts.file);
  is_running = λ id. get_instance_state id g.instances;
}

-- The test of SelectAccount on an instance.
abbrev pub has_running_instance : Gateway → String → Bool
has_running_instance g id = is_running_status (get_instance_status id g.instances)

-- RecordRequest
abbrev pub note_request : Env → String → Bool → Bool → Gateway → Gateway
note_request env account_id failed is_429 g = record g {
  balancer = record (g.balancer) {
    usage = record_request account_id failed is_429 env.now g.balancer.usage;
  };
}

-- EvictAccountContinuationCaches
unfoldable pub evict_account_continuation_caches : Env → String → Gateway → Gateway
unfolding evict_turns evict_replay
evict_account_continuation_caches env account_id g =
    let id = trim account_id in
    if id == "" then g else record g {
      response_turns = (evict_turns env.metadata id g.response_turns).1;
      function_call_turns = (evict_turns env.metadata id g.function_call_turns).1;
      tool_call_turns = (evict_turns env.metadata id g.tool_call_turns).1;
      replay = evict_replay env.metadata id g.replay;
    }

abbrev with_error : Option Account → String → Gateway → Gateway
with_error none reason g = g
with_error (some a) reason g = record g { instances = set_account_error a reason g.instances }

abbrev disabled : Env → String → String → Result (Option Account) → Gateway → Gateway
disabled env account_id reason (Result.err e) g = g
disabled env account_id reason (Result.ok found) g =
    evict_account_continuation_caches env account_id (with_error found reason g)

-- DisableAccount
unfoldable pub disable_account : Env → String → String → Gateway → Gateway
unfolding evict_account_continuation_caches
disable_account env account_id reason g =
    let (result, disk) = update_account account_id (("enabled", flag false) ∷ []) g.accounts in
    disabled env account_id reason result (record g { accounts = disk })

-- An answer of the upstream: its status, what `json.Unmarshal` makes of the error in its body (its
-- code and its message, where the body parses), and the body's text.
pub record Response : Type 0 where
  pub status : ℕ
  pub error_code : Option (String × String)
  pub body : String

-- isRetryableStatus
unfoldable pub is_retryable_status : ℕ → Bool
is_retryable_status status =
    eqb status 429 || (eqb status 401 || (leb 500 status && leb status 599))

abbrev on_code : Env → String → String → Option (String × String) → Gateway → Bool × Gateway
on_code env account_id model none g = (false, g)
on_code env account_id model (some (code, message)) g =
    if code == "model_not_supported"
    then (true, record g { accounts = (block_model_for_account account_id model g.accounts).1 })
    else if code == "quota_exceeded"
    then (true, disable_account env account_id (code ⧺ ": " ⧺ message) g)
    else (false, g)

-- disableOnFatalUpstream: whether the account is of no more use to the request.
unfoldable pub disable_on_fatal_upstream :
    Env → Response → String → String → Gateway → Bool × Gateway
unfolding disable_account
disable_on_fatal_upstream env resp account_id model g =
    if eqb resp.status 400 || eqb resp.status 402
    then on_code env account_id model resp.error_code g
    else (false, g)

-- checkRateLimit: whether the request may pass, and the seconds of Retry-After.
abbrev pub check_limit : Env → String → Gateway → (Bool × ℕ) × Gateway
check_limit env account_id g =
    let (answer, limits') = check_rate_limit account_id env.now g.limits in
    (answer, record g { limits = limits' })
