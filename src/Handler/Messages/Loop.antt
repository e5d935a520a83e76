-- ===== src/Handler/Messages/Loop.antt =====
-- handler/proxy.go: what the loop of proxyMessages makes of an answer, and the loop.
use copilot_pool_gateway.Base.{
  ℕ, zero, suc, ◌+◌, String, Bool, true, false, not, ◌&&◌, ◌||◌, [], ◌∷◌, none, some, ◌==◌,
  if◌then◌else◌, eqb, leb, ltb, trim,
}
use copilot_pool_gateway.Handler.Affinity.{bind_session_affinity}
use copilot_pool_gateway.Handler.Gateway.{
  Gateway, Env, Response, note_request, check_limit, is_retryable_status, disable_on_fatal_upstream,
}
use copilot_pool_gateway.Handler.Routing.{Reply, failure, forwarded, is_pool}
use copilot_pool_gateway.Handler.Responses.{Answer, rewrite_error, proxy_error, answered, Upstream}
use copilot_pool_gateway.Handler.Responses.Answers.{read_replay_invalid_response}
use copilot_pool_gateway.Handler.Messages.{
  continues, MessagesRequest, MessagesTurn, Call, Run, Next, same_account, other_account, excluding,
  new_turn,
}
use copilot_pool_gateway.Handler.Messages.Choice.{Choice, chosen, no_choice, choose_account}

abbrev pub prepend : Call → Run → Run
prepend c ((calls, reply), g) = ((c ∷ calls, reply), g)

abbrev pub stop : Call → Reply → Gateway → Run
stop c reply g = ((c ∷ [], reply), g)

-- `continue`, where an attempt is left.
abbrev pub go_on : Next → Call → MessagesTurn → Gateway → Run → Run
go_on none c t g otherwise = otherwise
go_on (some next) c t g otherwise = prepend c (next t g)

-- shouldRetryMessagesDetachedSameAccount, where an attempt is left
abbrev pub should_retry_same : MessagesRequest → Bool → Call → Bool
should_retry_same q replay_bound (id, detached) =
    continues q && (replay_bound && (not detached && not (trim id == "")))

-- A failure with an attempt left: another account, or none.
abbrev pub to_other : MessagesRequest → Next → Call → MessagesTurn → Gateway → Run → Run
to_other q next c t g otherwise =
    if continues q && is_pool q.caller
    then go_on next c (other_account c.0 t) g otherwise
    else if not (continues q)
    then go_on next c (excluding c.0 t) g otherwise
    else otherwise

abbrev pub to_same_or_other :
    MessagesRequest → Bool → Next → Call → MessagesTurn → Gateway → Run → Run
to_same_or_other q replay_bound next c t g otherwise =
    if should_retry_same q replay_bound c
    then go_on next c (same_account c.0 t) g otherwise
    else to_other q next c t g otherwise

abbrev pub failed : Env → String → Gateway → Gateway
failed env id g = note_request env id true false g

-- The answer that ends the loop.
abbrev pub forward : Env → MessagesRequest → Call → Response → Gateway → Run
forward env q c resp g = stop c (forwarded c.0 resp.status) (
    if leb 200 resp.status && (ltb resp.status 300 && not (q.affinity_key == ""))
    then record g {
      messages_affinity = bind_session_affinity env.now q.affinity_key c.0 g.messages_affinity;
    }
    else g)

-- The mark of the failed request, where an attempt is left.
abbrev pub noted : Env → Next → String → ℕ → Gateway → Gateway
noted env none id status g = g
noted env (some next) id status g = note_request env id true (eqb status 429) g

abbrev pub check_status :
    Env → MessagesRequest → Bool → Next → Call → MessagesTurn → Response → Gateway → Run
check_status env q replay_bound next c t resp g =
    let g' = noted env next c.0 resp.status g in
    if is_retryable_status resp.status
    then to_same_or_other q replay_bound next c t g' (forward env q c resp g')
    else forward env q c resp g

abbrev pub after_fatal :
    Env → MessagesRequest → Bool → Next → Call → MessagesTurn → Response → Bool × Gateway → Run
after_fatal env q replay_bound next c t resp (true, g) =
    to_other q next c t (failed env c.0 g)
      (check_status env q replay_bound next c t resp (failed env c.0 g))
after_fatal env q replay_bound next c t resp (false, g) =
    check_status env q replay_bound next c t resp g

abbrev pub on_replay_invalid :
    Env → MessagesRequest → Bool → Next → Call → MessagesTurn → Gateway → Run
on_replay_invalid env q replay_bound next c t g =
    let stopped = stop c (failure 502 "message continuation recovery failed") g in
    if should_retry_same q replay_bound c
    then go_on next c (same_account c.0 t) g stopped
    else if is_pool q.caller
    then go_on next c (other_account c.0 t) g stopped
    else stopped

unfoldable pub on_answer :
    Env → MessagesRequest → Bool → Next → Call → MessagesTurn → Answer → Gateway → Run
on_answer env q replay_bound next c t rewrite_error g =
    stop c (failure 400 "rewrite error") (failed env c.0 g)
on_answer env q replay_bound next c t proxy_error g =
    to_same_or_other q replay_bound next c t (failed env c.0 g)
      (stop c (failure 502 "proxy request failed") (failed env c.0 g))
on_answer env q replay_bound next c t (answered resp) g =
    if continues q && read_replay_invalid_response resp
    then on_replay_invalid env q replay_bound next c t (failed env c.0 g)
    else after_fatal env q replay_bound next c t resp
        (disable_on_fatal_upstream env resp c.0 q.model g)

-- `detachedMode`
abbrev pub is_detached : MessagesRequest → Bool → MessagesTurn → Bool
is_detached q replay_bound t = continues q && (not (t.retry_account_id == "") || not replay_bound)

abbrev pub after_limit :
    Upstream
    → Env
    → MessagesRequest
    → ℕ
    → Bool
    → Next
    → String
    → MessagesTurn
    → (Bool × ℕ) × Gateway
    → Run
after_limit up env q k replay_bound next id t ((true, _), g) =
    on_answer env q replay_bound next (id, is_detached q replay_bound t) t (up.answer k)
      (up.meanwhile k (note_request env id false false g))
after_limit up env q k replay_bound next id t ((false, _), g) =
    (([], failure 429 "rate limit exceeded"), g)

abbrev pub after_choice :
    Upstream → Env → MessagesRequest → ℕ → Next → (Choice × Gateway) × MessagesTurn → Run
after_choice up env q k next ((no_choice code text, g), t) = (([], failure code text), g)
after_choice up env q k next ((chosen replay_bound id, g), t) =
    after_limit up env q k replay_bound next id t (check_limit env id g)

-- The loop from attempt `k` on, with so many attempts left behind it.
unfoldable pub attempts : ℕ → Upstream → Env → MessagesRequest → ℕ → MessagesTurn → Gateway → Run
unfolding on_answer choose_account
attempts zero up env q k t g = after_choice up env q k none (choose_account env q t g)
attempts (suc n) up env q k t g =
    after_choice up env q k (some (attempts n up env q (k + 1))) (choose_account env q t g)

-- proxyMessages
unfoldable pub proxy_messages : Upstream → Env → MessagesRequest → Gateway → Run
unfolding attempts
proxy_messages up env q g = attempts (if is_pool q.caller then 2 else 0) up env q 0 new_turn g
