-- ===== src/Handler/Binding.antt =====
-- handler/proxy.go: how a continuation of /v1/responses maps onto the caches.
use copilot_pool_gateway.Base.{String, List, [], ◌∷◌, Option, none, some, ◌==◌, if◌then◌else◌, trim}
use copilot_pool_gateway.Store.Account.Models.{is_model_blocked}
use copilot_pool_gateway.Instance.Turns.Bindings.{TurnStore, lookup_turn_account}
use copilot_pool_gateway.Instance.Turns.Session.{
  SessionResolution, canonical, split, orphan, resolve_response_function_call_session,
}
use copilot_pool_gateway.Instance.Replay.{ReplayStore, lookup_responses_replay_account}
use copilot_pool_gateway.Instance.Registry.{get_instance_state}
use copilot_pool_gateway.Handler.Gateway.{Gateway, Env}
use copilot_pool_gateway.Handler.Routing.{Reply, failure}

-- continuationBindingKind, with the account or the accounts of each kind.
pub data Binding : Type 0 where
  bound : String → Binding
  unavailable : String → Binding
  split_over : List String → Binding
  orphaned : Binding

-- canonicalAccountBinding
unfoldable pub canonical_account_binding : String → String → Gateway → Binding
canonical_account_binding account_id model g =
    if is_model_blocked g.accounts account_id model
    then unavailable account_id
    else if get_instance_state account_id g.instances
    then bound account_id
    else unavailable account_id

abbrev account_or_turn :
    Env → String → Option String × ReplayStore → Gateway → Option String × Gateway
account_or_turn env response_id (some id, replay) g = (some id, record g { replay = replay })
account_or_turn env response_id (none, replay) g =
    let (found, turns) = lookup_turn_account env.metadata env.now response_id g.response_turns in
    (found, record g { replay = replay; response_turns = turns })

-- LookupResponsesReplayAccount, then LookupResponseTurnAccount.
unfoldable pub lookup_response_account : Env → String → Gateway → Option String × Gateway
unfolding lookup_responses_replay_account lookup_turn_account
lookup_response_account env response_id g =
    account_or_turn env response_id
      (lookup_responses_replay_account env.metadata env.now response_id g.replay) g

abbrev bind_found : String → Option String × Gateway → Binding × Gateway
bind_found model (none, g) = (orphaned, g)
bind_found model (some id, g) = (canonical_account_binding id model g, g)

abbrev bind_session : String → SessionResolution × TurnStore → Gateway → Binding × Gateway
bind_session model (session, turns) g =
    let g' = record g { function_call_turns = turns } in
    elim session.kind [
      | canonical ↦ (canonical_account_binding session.account_id model g', g')
      | split ↦ (split_over session.split_accounts, g')
      | orphan ↦ (orphaned, g')
    ]

abbrev bind_calls : Env → List String → String → Gateway → Binding × Gateway
bind_calls env [] model g = (orphaned, g)
bind_calls env (id ∷ ids) model g =
    bind_session model
      (resolve_response_function_call_session env.metadata env.now (id ∷ ids) g.function_call_turns)
      g

-- resolveContinuationBinding
unfoldable pub resolve_continuation_binding :
    Env → String → List String → String → Gateway → Binding × Gateway
unfolding lookup_response_account canonical_account_binding
resolve_continuation_binding env previous_response_id function_call_output_ids model g =
    if trim previous_response_id == ""
    then bind_calls env function_call_output_ids model g
    else bind_found model (lookup_response_account env (trim previous_response_id) g)

-- writeSessionBindingError
unfoldable pub write_session_binding_error : Binding → Reply
write_session_binding_error (unavailable id) = failure 503 "session_bound_account_unavailable"
write_session_binding_error (split_over accounts) = failure 409 "session_split_history"
write_session_binding_error _ = failure 410 "session_expired"
