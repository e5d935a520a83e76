-- ===== src/Handler/Completions.antt =====
-- handler/proxy.go: proxyCompletions, proxyEmbeddings and proxyResponsesCompact, which share their
-- loop. Logs are left out, and so is what forwarding a response stores.
pub mod Fresh
pub mod Spent
use copilot_pool_gateway.Base.{
  ℕ, zero, suc, ◌+◌, String, Bool, true, false, not, ◌&&◌, List, [], ◌∷◌, Option, none, some, ◌==◌,
  if◌then◌else◌, eqb,
}
use copilot_pool_gateway.Handler.Gateway.{
  Gateway, Env, Response, note_request, check_limit, is_retryable_status, disable_on_fatal_upstream,
}
use copilot_pool_gateway.Handler.Routing.{
  Reply, failure, forwarded, Caller, is_pool, Resolved, found, refused, resolve_state,
  resolve_account,
}
use copilot_pool_gateway.Handler.Binding.{lookup_response_account}
use copilot_pool_gateway.Handler.Responses.{Answer, rewrite_error, proxy_error, answered, Upstream}

-- What the headers and the body say.
pub record PlainRequest : Type 0 where
  pub caller : Caller
  pub model : String
  pub previous_response_id : String

-- How the handlers differ: whether a previous response decides on the account, and whether the
-- error of a rewrite is told from others.
pub record Endpoint : Type 0 where
  pub replays : Bool
  pub rewrites : Bool

-- The accounts that were called, in order, and the reply.
abbrev pub Run : Type 0
Run = (List String × Reply) × Gateway

-- The rest of the loop, if an attempt is left.
abbrev pub Next : Type 0
Next = Option (List String → Gateway → Run)

abbrev replayed : String → Option String × Gateway → Resolved × Gateway
replayed model (none, g) = (refused 400 "previous_response_id was not found or has expired", g)
replayed model (some id, g) = (resolve_account model id g, g)

-- resolveStateForResponseReplay
unfoldable pub resolve_state_for_response_replay :
    Env → String → String → Gateway → Resolved × Gateway
unfolding lookup_response_account resolve_account
resolve_state_for_response_replay env previous_response_id model g =
    replayed model (lookup_response_account env previous_response_id g)

abbrev pub resolve : Endpoint → Env → PlainRequest → List String → Gateway → Resolved × Gateway
resolve e env q exclude g =
    if e.replays && not (q.previous_response_id == "")
    then resolve_state_for_response_replay env q.previous_response_id q.model g
    else resolve_state env q.caller "" exclude q.model g

abbrev pub prepend : String → Run → Run
prepend id ((calls, reply), g) = ((id ∷ calls, reply), g)

abbrev pub stop : String → Reply → Gateway → Run
stop id reply g = ((id ∷ [], reply), g)

-- `exclude[…] = true; continue`, where an attempt is left.
abbrev pub retry : Next → String → List String → Gateway → Run → Run
retry none id exclude g otherwise = otherwise
retry (some next) id exclude g otherwise = prepend id (next (id ∷ exclude) g)

abbrev failed : Env → String → Gateway → Gateway
failed env id g = note_request env id true false g

abbrev pub on_error : Env → Next → String → List String → Gateway → Run
on_error env next id exclude g =
    retry next id exclude (failed env id g)
      (stop id (failure 502 "proxy request failed") (failed env id g))

abbrev pub check_status : Env → Next → String → List String → Response → Gateway → Run
check_status env next id exclude resp g =
    if is_retryable_status resp.status
    then retry next id exclude (note_request env id true (eqb resp.status 429) g)
        (stop id (forwarded id resp.status) g)
    else stop id (forwarded id resp.status) g

abbrev pub after_fatal : Env → Next → String → List String → Response → Bool × Gateway → Run
after_fatal env next id exclude resp (true, g) =
    retry next id exclude (failed env id g)
      (check_status env next id exclude resp (failed env id g))
after_fatal env next id exclude resp (false, g) = check_status env next id exclude resp g

unfoldable pub on_answer :
    Endpoint → Env → PlainRequest → Next → String → List String → Answer → Gateway → Run
on_answer e env q next id exclude rewrite_error g =
    if e.rewrites
    then stop id (failure 400 "rewrite error") (failed env id g)
    else on_error env next id exclude g
on_answer e env q next id exclude proxy_error g = on_error env next id exclude g
on_answer e env q next id exclude (answered resp) g =
    after_fatal env next id exclude resp (disable_on_fatal_upstream env resp id q.model g)

abbrev after_limit :
    Endpoint
    → Upstream
    → Env
    → PlainRequest
    → ℕ
    → Next
    → String
    → List String
    → (Bool × ℕ) × Gateway
    → Run
after_limit e up env q k next id exclude ((true, _), g) =
    on_answer e env q next id exclude (up.answer k)
      (up.meanwhile k (note_request env id false false g))
after_limit e up env q k next id exclude ((false, _), g) =
    (([], failure 429 "rate limit exceeded"), g)

abbrev pub after_resolve :
    Endpoint → Upstream → Env → PlainRequest → ℕ → Next → List String → Resolved × Gateway → Run
after_resolve e up env q k next exclude (refused code text, g) = (([], failure code text), g)
after_resolve e up env q k next exclude (found id, g) =
    after_limit e up env q k next id exclude (check_limit env id g)

-- The loop from attempt `k` on, with so many attempts left behind it.
unfoldable pub attempts :
    ℕ → Endpoint → Upstream → Env → PlainRequest → ℕ → List String → Gateway → Run
unfolding on_answer resolve_state_for_response_replay
attempts zero e up env q k exclude g =
    after_resolve e up env q k none exclude (resolve e env q exclude g)
attempts (suc n) e up env q k exclude g =
    after_resolve e up env q k (some (attempts n e up env q (k + 1))) exclude
      (resolve e env q exclude g)

-- One attempt less than `maxAttempts`.
abbrev pub more_attempts : Caller → ℕ
more_attempts caller = if is_pool caller then 2 else 0

-- proxyCompletions
unfoldable pub proxy_completions : Upstream → Env → PlainRequest → Gateway → Run
unfolding attempts
proxy_completions up env q g =
    attempts (more_attempts q.caller) (record { replays = true; rewrites = true }) up env q 0 [] g

-- proxyEmbeddings
unfoldable pub proxy_embeddings : Upstream → Env → PlainRequest → Gateway → Run
unfolding attempts
proxy_embeddings up env q g =
    attempts (more_attempts q.caller) (record { replays = true; rewrites = false }) up env q 0 [] g

-- proxyResponsesCompact
unfoldable pub proxy_responses_compact : Upstream → Env → PlainRequest → Gateway → Run
unfolding attempts
proxy_responses_compact up env q g =
    attempts (more_attempts q.caller) (record { replays = false; rewrites = true }) up env q 0 [] g
