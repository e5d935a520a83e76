-- ===== src/Handler/Responses/Loop.antt =====
-- handler/proxy.go: proxyResponses as a whole. An attempt spends one unit of fuel.
use copilot_pool_gateway.Base.{ℕ, zero, suc, ◌+◌, List, [], ◌∷◌, if◌then◌else◌, ltb}
use copilot_pool_gateway.Handler.Gateway.{Gateway, Env}
use copilot_pool_gateway.Handler.Routing.{Reply}
use copilot_pool_gateway.Handler.Responses.{
  Request, Upstream, Call, Turn, max_attempts, Step, stop, again,
}
use copilot_pool_gateway.Handler.Responses.Start.{Start, rejected, begins, start_responses}
use copilot_pool_gateway.Handler.Responses.Attempt.{attempt_responses}

-- How the handler ends: with a reply, without one when the loop's condition fails, or, in the model
-- only, out of fuel.
pub data Ending : Type 0 where
  replied : Reply → Ending
  silent out_of_fuel : Ending

abbrev pub Run : Type 0
Run = (List Call × Ending) × Gateway

abbrev pub prepend : Call → Run → Run
prepend c ((calls, ending), g) = ((c ∷ calls, ending), g)

abbrev pub follow : Step × Gateway → (Turn → Gateway → Run) → Run
follow (stop calls reply, g) go_on = ((calls, replied reply), g)
follow (again call t, g) go_on = prepend call (go_on t g)

-- The loop, with the calls that it makes.
unfoldable pub loop : ℕ → Upstream → Env → Request → Turn → Gateway → Run
unfolding attempt_responses
loop zero up env q t g = (([], out_of_fuel), g)
loop (suc n) up env q t g =
    let rest = loop n up env q in
    if ltb t.attempt t.attempt_limit
    then follow (attempt_responses up env q t g) rest
    else (([], silent), g)

abbrev pub run_from : Upstream → Env → Request → Start × Gateway → Run
run_from up env q (rejected reply, g) = (([], replied reply), g)
run_from up env q (begins t, g) = loop (suc (max_attempts q.caller + 1)) up env q t g

-- proxyResponses
unfoldable pub proxy_responses : Upstream → Env → Request → Gateway → Run
unfolding start_responses loop
proxy_responses up env q g = run_from up env q (start_responses env q g)
