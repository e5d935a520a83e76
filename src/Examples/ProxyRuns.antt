-- ===== src/Examples/ProxyRuns.antt =====
-- The theorems on routing and on the proxy's loops, at a gateway with the two accounts.
use copilot_pool_gateway.Instance.Registry.{get_instance_status}
use copilot_pool_gateway.Store.Account.Models.{collect_blocked}
use copilot_pool_gateway.Store.Disk.{read}
use copilot_pool_gateway.Store.Account.Lookup.{get_enabled_accounts}
use copilot_pool_gateway.Instance.LoadBalancer.{select_account}
use copilot_pool_gateway.Handler.Gateway.{disable_on_fatal_upstream}
use copilot_pool_gateway.Instance.RateLimiter.{check_rate_limit}
use copilot_pool_gateway.Base.{lower_char}
use copilot_pool_gateway.Base.{to_lower}
use copilot_pool_gateway.Store.Account.Models.{normalize_model_key}
use copilot_pool_gateway.Store.Account.Models.{has_blocked_model}
use copilot_pool_gateway.Store.Disk.{contents}
use copilot_pool_gateway.Store.Account.Models.{is_model_blocked}
use copilot_pool_gateway.Base.StringMap.{put}
use copilot_pool_gateway.Instance.Turns.Bindings.{lookup_call_account}
use copilot_pool_gateway.Base.{is_space}
use copilot_pool_gateway.Instance.Turns.Session.{resolve_response_function_call_session}
use copilot_pool_gateway.Base.{trim}
use copilot_pool_gateway.Base.{
  ℕ, ◌≤◌, String, ◌≡◌, ◌≢◌, refl, true, false, [], ◌∷◌, none, eqb, if◌then◌else◌, All, length,
}
use copilot_pool_gateway.Base.StringMap.{get}
use copilot_pool_gateway.Store.Account.Models.{get_blocked_account_ids}
use copilot_pool_gateway.Store.Account.{Account}
use copilot_pool_gateway.Store.Pool.{holds}
use copilot_pool_gateway.Instance.Turns.Bindings.{TurnStore}
use copilot_pool_gateway.Instance.Registry.{ProxyInstance, running, get_instance_state}
use copilot_pool_gateway.Handler.Gateway.{
  Gateway, Env, Response, disable_account, is_retryable_status,
}
use copilot_pool_gateway.Handler.Routing.{
  in_pool, as_account, found, forwarded, member, resolve_state,
}
use copilot_pool_gateway.Handler.Routing.Serves.{
  resolve_state_serves, resolve_state-disable_account,
}
use copilot_pool_gateway.Handler.Binding.{bound, resolve_continuation_binding}
use copilot_pool_gateway.Handler.Responses.{Request, proxy_error, answered, Upstream}
use copilot_pool_gateway.Handler.Responses.Bounds.{is_detached}
use copilot_pool_gateway.Handler.Responses.Endings.{is_reply}
use copilot_pool_gateway.Handler.Responses.Start.{looked_up}
use copilot_pool_gateway.Handler.Responses.Loop.{proxy_responses}
use copilot_pool_gateway.Handler.Responses.Runs.{
  proxy_responses-replies, proxy_responses-one_account, proxy_responses-bound,
}
use copilot_pool_gateway.Handler.Completions.{
  PlainRequest, proxy_completions, proxy_embeddings, proxy_responses_compact,
}
use copilot_pool_gateway.Handler.Completions.Fresh.{NoRepeat, attempts-NoRepeat}
use copilot_pool_gateway.Handler.Completions.Spent.{proxy_completions-spent}
use copilot_pool_gateway.Handler.Messages.{MessagesRequest}
use copilot_pool_gateway.Handler.Messages.Loop.{proxy_messages}
use copilot_pool_gateway.Handler.Messages.Detached.{NoRepeat as NoRepeatedCall}
use copilot_pool_gateway.Handler.Messages.Repeats.{proxy_messages-NoRepeat}
use copilot_pool_gateway.Examples.Accounts.{alice, bob, two_accounts, disk}

abbrev instance_of : Account → ProxyInstance
instance_of a = record {
  account = a;
  has_state = true;
  status = running;
  error_text = "";
  stop_chan_open = true;
}

abbrev no_turns : TurnStore
no_turns = record { entries = []; bindings = [] }

abbrev call_1_turns : TurnStore
call_1_turns = record {
  entries =
      (
        "call_1",
        record {
          account_id = "a1";
          context = record { interaction_id = "i"; client_session_id = "s"; agent_task_id = "t" };
          created_at = 900;
          accessed_at = 900;
        },
      )
      ∷ [];
  bindings = [];
}

abbrev gateway : Gateway
gateway = record {
  accounts = disk;
  pool =
      holds (record {
        enabled = true;
        strategy = "priority";
        api_key = "sk-pool-1";
        rate_limit_rpm = 0;
      });
  instances = ("a1", instance_of alice) ∷ ("b2", instance_of bob) ∷ [];
  balancer = record { usage = []; rr_index = 0 };
  limits = record { global_limiter = none; account_limiters = []; per_account_rpm = 0 };
  messages_affinity = [];
  responses_affinity = [];
  response_turns = no_turns;
  function_call_turns = call_1_turns;
  tool_call_turns = no_turns;
  replay = record { entries = []; rows = [] };
}

abbrev env : Env
env = record {
  now = 1000;
  metadata = record {
    enabled = false;
    opens = false;
    reads = false;
    writes = false;
    retention = 0;
  };
  orphan_passthrough_off = false;
  responses_orphan_translate_on = true;
}

abbrev status_only : ℕ → Response
status_only status = record { status = status; error_code = none; body = "" }

-- A token that has to be refreshed, then an error, then success.
abbrev upstream : Upstream
upstream = record {
  answer = λ k.
      if eqb k 0
      then answered (status_only 401)
      else if eqb k 1
      then proxy_error
      else answered (status_only 200);
  refreshes = λ k. true;
  meanwhile = λ k g. g;
}

-- An upstream that is always overloaded.
abbrev overloaded : Upstream
overloaded = record {
  answer = λ k. answered (status_only 503);
  refreshes = λ k. true;
  meanwhile = λ k g. g;
}

abbrev request : Request
request = record {
  caller = in_pool "priority";
  model = "gpt-5";
  affinity_key = "";
  recovery_key = "";
  previous_response_id = "";
  function_call_output_ids = "call_1" ∷ [];
  opts_in = false;
  degrades = false;
}

proxy_responses-replies_example :
    (is_reply (proxy_responses upstream env request gateway).0.1 ≡ true)
    × (length (proxy_responses upstream env request gateway).0.0 ≤ 5)
proxy_responses-replies_example = proxy_responses-replies upstream env request gateway

proxy_responses-one_account_example :
    (id : String) × All
      (λ c. (c.account_id ≡ id) × (is_detached c.mode ≡ false))
      (proxy_responses upstream env request gateway).0.0
proxy_responses-one_account_example = proxy_responses-one_account upstream env request gateway

binds_call_1 :
    (resolve_continuation_binding env "" ("call_1" ∷ []) "gpt-5" (looked_up env request gateway)).0
    ≡ bound "a1"
unfolding resolve_continuation_binding trim resolve_response_function_call_session is_space get
    lookup_call_account put is_model_blocked contents has_blocked_model normalize_model_key to_lower
    lower_char get_instance_state
binds_call_1 = refl

proxy_responses-bound_example :
    All (λ c. c.account_id ≡ "a1") (proxy_responses upstream env request gateway).0.0
proxy_responses-bound_example =
    proxy_responses-bound upstream env request gateway "a1" refl binds_call_1

abbrev messages_request : MessagesRequest
messages_request = record {
  caller = in_pool "priority";
  model = "claude-opus-4.6";
  affinity_key = "";
  tool_result_ids = "t1" ∷ [];
}

proxy_messages-NoRepeat_example :
    NoRepeatedCall (proxy_messages overloaded env messages_request gateway).0.0
    × (length (proxy_messages overloaded env messages_request gateway).0.0 ≤ 3)
proxy_messages-NoRepeat_example =
    proxy_messages-NoRepeat overloaded env messages_request gateway refl

abbrev plain_request : PlainRequest
plain_request = record { caller = in_pool "priority"; model = "gpt-4"; previous_response_id = "" }

attempts-NoRepeat_example :
    (NoRepeat (proxy_completions overloaded env plain_request gateway).0.0
      × (length (proxy_completions overloaded env plain_request gateway).0.0 ≤ 3))
    × (NoRepeat (proxy_embeddings overloaded env plain_request gateway).0.0
        × (length (proxy_embeddings overloaded env plain_request gateway).0.0 ≤ 3))
    × (NoRepeat (proxy_responses_compact overloaded env plain_request gateway).0.0
        × (length (proxy_responses_compact overloaded env plain_request gateway).0.0 ≤ 3))
attempts-NoRepeat_example = attempts-NoRepeat overloaded env plain_request gateway refl refl

abbrev alices_request : PlainRequest
alices_request = record { caller = as_account "a1"; model = "gpt-4"; previous_response_id = "" }

passes_503_on : (proxy_completions overloaded env alices_request gateway).0.1 ≡ forwarded "a1" 503
unfolding proxy_completions resolve_state is_model_blocked contents has_blocked_model
    normalize_model_key trim to_lower is_space lower_char get_instance_state get check_rate_limit
    disable_on_fatal_upstream is_retryable_status
passes_503_on = refl

proxy_completions-spent_example :
    length (proxy_completions overloaded env alices_request gateway).0.0 ≡ 1
unfolding is_retryable_status
proxy_completions-spent_example =
    proxy_completions-spent overloaded env alices_request gateway "a1" 503 passes_503_on refl

gives_bob : (resolve_state env (in_pool "priority") "" ("a1" ∷ []) "gpt-4" gateway).0 ≡ found "b2"
unfolding resolve_state select_account get_enabled_accounts read get get_blocked_account_ids
    normalize_model_key trim to_lower is_space lower_char collect_blocked has_blocked_model
    get_instance_status get_instance_state
gives_bob = refl

resolve_state_serves_example :
    (member "b2" ("a1" ∷ []) ≡ false)
    × (get (get_blocked_account_ids gateway.accounts "gpt-4") "b2" ≡ none)
    × (get_instance_state "b2" gateway.instances ≡ true)
resolve_state_serves_example =
    resolve_state_serves env "priority" "" "gpt-4" ("a1" ∷ []) gateway "b2" gives_bob

resolve_state-disable_account_example :
    (resolve_state env
      (in_pool "smart")
      ""
      []
      "gpt-4"
      (disable_account env "b2" "quota_exceeded: none left" gateway)).0
    ≢ found "b2"
unfolding contents
resolve_state-disable_account_example =
    resolve_state-disable_account env env gateway two_accounts "b2" "quota_exceeded: none left" bob
      "smart" "" "gpt-4" [] refl refl refl
