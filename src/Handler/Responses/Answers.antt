-- ===== src/Handler/Responses/Answers.antt =====
-- handler/proxy.go: what the loop of proxyResponses makes of an upstream's answer.
use copilot_pool_gateway.Base.{
  ◌+◌, Bool, true, false, not, ◌||◌, ◌&&◌, [], ◌∷◌, none, some, if◌then◌else◌, to_lower, eqb,
  contains,
}
use copilot_pool_gateway.Instance.Registry.{get_instance_state}
use copilot_pool_gateway.Handler.Gateway.{
  Gateway, Env, Response, note_request, is_retryable_status, disable_on_fatal_upstream,
}
use copilot_pool_gateway.Handler.Routing.{failure, forwarded, is_pool, member}
use copilot_pool_gateway.Handler.Recovery.{OrphanTranslateRoute, resolve_orphan_recovery_state}
use copilot_pool_gateway.Handler.Responses.{
  Request, Answer, Upstream, Call, Turn, is_armed, cleared, Step, attempts_left, next_attempt,
  excluding, rolling_over, rewrite_error, proxy_error, answered, stop, again,
}

-- An attempt's failure: whether the loop goes on, and with what.
abbrev pub retried : Request → Bool → Call → Turn → Gateway → Step × Gateway → Step × Gateway
retried q can_detach call t g otherwise =
    if t.continuation_requested && (can_detach && is_pool q.caller)
    then (again call (rolling_over call.account_id t), g)
    else if not t.continuation_requested
    then (again call (excluding call.account_id t), g)
    else otherwise

abbrev pub failed : Env → Call → Gateway → Gateway
failed env call g = note_request env call.account_id true false g

-- `if proxyErr != nil`, for an error of the upstream
unfoldable pub on_proxy_error : Env → Request → Bool → Call → Turn → Gateway → Step × Gateway
on_proxy_error env q can_detach call t g =
    if attempts_left t
    then retried q can_detach call t (failed env call g)
        (stop (call ∷ []) (failure 502 "proxy request failed"), failed env call g)
    else (stop (call ∷ []) (failure 502 "proxy request failed"), failed env call g)

-- readReplayInvalidResponse
unfoldable pub read_replay_invalid_response : Response → Bool
read_replay_invalid_response resp =
    let message = to_lower resp.body in
    (eqb resp.status 400 || eqb resp.status 401)
    && (contains "input item does not belong to this connection" message
        || (contains "input item id does not belong to this connection" message
            || (contains "no tool call found for function call output" message
                || contains "previous_response_id is not supported" message)))

abbrev pub with_degraded_body : Call → Turn → Turn
with_degraded_body call t = record (cleared (excluding call.account_id t)) {
  degraded_body = true;
  orphan_degraded = true;
  continuation_pinned = none;
  cross_account_rollover = false;
}

abbrev pub with_recovery : OrphanTranslateRoute → Call → Turn → Turn
with_recovery route call t = record (cleared (next_attempt t)) {
  attempt_limit = if attempts_left t then t.attempt_limit else t.attempt_limit + 1;
  orphan_degraded = true;
  recovery = route;
  continuation_pinned = none;
  cross_account_rollover = false;
  pinned_account = some call.account_id;
  with_turn = true;
}

-- The branch for an answer that rejects the continuation.
unfoldable pub on_replay_invalid : Env → Request → Bool → Call → Turn → Gateway → Step × Gateway
on_replay_invalid env q can_detach call t g =
    let route = resolve_orphan_recovery_state env q.caller q.model t.exclude g in
    if t.continuation_requested && (can_detach && (attempts_left t && is_pool q.caller))
    then (again call (rolling_over call.account_id t), g)
    else if t.degrade_opt_in && (not t.orphan_degraded && (attempts_left t && q.degrades))
    then (again call (with_degraded_body call t), g)
    else if not t.orphan_degraded && (not (is_armed t.recovery) && is_armed route)
    then (again call (with_recovery route call t), g)
    else if is_armed t.recovery && (is_pool q.caller && attempts_left t)
    then (again call (excluding call.account_id t), g)
    else (stop (call ∷ []) (failure 502 "session_upstream_orphan"), g)

abbrev pub forward : Call → Response → Gateway → Step × Gateway
forward call resp g = (stop (call ∷ []) (forwarded call.account_id resp.status), g)

-- The last check of the loop, and ForwardResponsesResponse.
unfoldable pub check_retryable :
    Env → Request → Bool → Call → Response → Turn → Gateway → Step × Gateway
check_retryable env q can_detach call resp t g =
    let noted = note_request env call.account_id true (eqb resp.status 429) g in
    if is_retryable_status resp.status && attempts_left t
    then retried q can_detach call t noted (forward call resp noted)
    else forward call resp g

abbrev pub after_refresh : Bool → Request → Bool → Call → Turn → Turn
after_refresh true q can_detach call t = record (next_attempt t) {
  attempt_limit = t.attempt_limit + 1;
  refreshed_on_account = call.account_id ∷ t.refreshed_on_account;
  pinned_account = some call.account_id;
}
after_refresh false q can_detach call t = record (excluding call.account_id t) {
  refreshed_on_account = call.account_id ∷ t.refreshed_on_account;
  cross_account_rollover =
      t.cross_account_rollover || (t.continuation_requested && (can_detach && is_pool q.caller));
}

-- Status 401: ForceRefreshToken, once for an account.
unfoldable pub check_unauthorized :
    Upstream → Env → Request → Bool → Call → Response → Turn → Gateway → Step × Gateway
unfolding check_retryable
check_unauthorized up env q can_detach call resp t g =
    if eqb resp.status 401
      && (not (member call.account_id t.refreshed_on_account) && attempts_left t)
    then (
      again call (
          after_refresh (get_instance_state call.account_id g.instances && up.refreshes t.attempt) q
            can_detach call t),
      failed env call g,
    )
    else check_retryable env q can_detach call resp t g

abbrev pub after_disabling :
    Upstream → Env → Request → Bool → Call → Response → Turn → Bool × Gateway → Step × Gateway
after_disabling up env q can_detach call resp t (true, g) =
    if attempts_left t
    then retried q can_detach call t (failed env call g)
        (check_unauthorized up env q can_detach call resp t (failed env call g))
    else check_unauthorized up env q can_detach call resp t (failed env call g)
after_disabling up env q can_detach call resp t (false, g) =
    check_unauthorized up env q can_detach call resp t g

-- From the upstream's answer on.
unfoldable pub on_answer :
    Upstream → Env → Request → Bool → Call → Answer → Turn → Gateway → Step × Gateway
unfolding on_proxy_error on_replay_invalid check_unauthorized
on_answer up env q can_detach call rewrite_error t g =
    (stop (call ∷ []) (failure 400 "rewrite error"), failed env call g)
on_answer up env q can_detach call proxy_error t g = on_proxy_error env q can_detach call t g
on_answer up env q can_detach call (answered resp) t g =
    if read_replay_invalid_response resp
    then on_replay_invalid env q can_detach call t (failed env call g)
    else after_disabling up env q can_detach call resp t
        (disable_on_fatal_upstream env resp call.account_id q.model g)
