-- ===== src/Handler/Responses/Start.antt =====
-- handler/proxy.go: what proxyResponses does before its loop.
use copilot_pool_gateway.Base.{true, not, ◌&&◌, [], some, ◌==◌, if◌then◌else◌}
use copilot_pool_gateway.Instance.Turns.Bindings.{lookup_turn_account, lookup_call_account}
use copilot_pool_gateway.Instance.Replay.{lookup_responses_replay_account}
use copilot_pool_gateway.Handler.Gateway.{Gateway, Env}
use copilot_pool_gateway.Handler.Routing.{Reply, is_pool}
use copilot_pool_gateway.Handler.Recovery.{
  OrphanTranslateRoute, can_orphan_passthrough, worker_disabled_account_ids,
  resolve_orphan_recovery_state,
}
use copilot_pool_gateway.Handler.Binding.{
  Binding, bound, unavailable, split_over, orphaned, resolve_continuation_binding,
  write_session_binding_error,
}
use copilot_pool_gateway.Handler.Responses.{Request, Turn, is_armed, has_ids, new_turn, cleared}

-- The lookups that are only logged, which touch the caches all the same.
abbrev pub look_up_previous : Env → Request → Gateway → Gateway
look_up_previous env q g = if q.previous_response_id == "" then g else record g {
  replay = (lookup_responses_replay_account env.metadata env.now q.previous_response_id g.replay).1;
  response_turns =
      (lookup_turn_account env.metadata env.now q.previous_response_id g.response_turns).1;
}

abbrev pub look_up_calls : Env → Request → Gateway → Gateway
look_up_calls env q g =
    if has_ids q.function_call_output_ids
    then record g {
      function_call_turns =
          (lookup_call_account env.metadata env.now q.function_call_output_ids
            g.function_call_turns).1;
    }
    else g

abbrev pub looked_up : Env → Request → Gateway → Gateway
looked_up env q g = look_up_calls env q (look_up_previous env q g)

-- The request may not run, or its loop begins.
pub data Start : Type 0 where
  rejected : Reply → Start
  begins : Turn → Start

abbrev pub recover : Request → Binding → OrphanTranslateRoute → Turn → Start
recover q binding route t =
    if is_armed route && has_ids q.function_call_output_ids
    then begins (record (cleared t) { recovery = route })
    else rejected (write_session_binding_error binding)

-- installResponsesRecoveryAffinityContext
abbrev pub with_recovery_key : Request → Turn → Turn
with_recovery_key q t = record t {
  affinity_key =
      if has_ids q.function_call_output_ids && t.affinity_key == ""
      then q.recovery_key
      else t.affinity_key;
}

abbrev pub pass_orphan : Env → Request → Gateway → Turn → Start
pass_orphan env q g t =
    let exclude =
      if is_pool q.caller && not env.responses_orphan_translate_on
      then worker_disabled_account_ids g
      else [] in
    begins (record (cleared t) {
      exclude = exclude;
      recovery = resolve_orphan_recovery_state env q.caller q.model exclude g;
    })

abbrev pub start_orphan : Env → Request → Gateway → Turn → Start
start_orphan env q g t =
    if not t.degrade_opt_in
      && (not env.orphan_passthrough_off
          && (has_ids q.function_call_output_ids
              && can_orphan_passthrough env q.caller q.model [] g))
    then pass_orphan env q g t
    else if t.degrade_opt_in && q.degrades
    then begins (record (cleared t) { degraded_body = true; orphan_degraded = true })
    else rejected (write_session_binding_error orphaned)

-- The switch over the binding's kind.
unfoldable pub start_bound : Env → Request → Turn → Binding × Gateway → Start
start_bound env q t (bound id, g) = begins (record t { continuation_pinned = some id })
start_bound env q t (unavailable id, g) =
    recover q (unavailable id) (resolve_orphan_recovery_state env q.caller q.model [] g) t
start_bound env q t (split_over ids, g) =
    recover q (split_over ids) (resolve_orphan_recovery_state env q.caller q.model [] g) t
start_bound env q t (orphaned, g) = start_orphan env q g (with_recovery_key q t)

-- All before the loop.
unfoldable pub start_responses : Env → Request → Gateway → Start × Gateway
unfolding start_bound
start_responses env q g =
    let g' = looked_up env q g in
    let binding =
      resolve_continuation_binding env q.previous_response_id q.function_call_output_ids q.model
        g' in
    if (new_turn q).continuation_requested
    then (start_bound env q (new_turn q) binding, binding.1)
    else (begins (new_turn q), g')
