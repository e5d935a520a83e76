-- ===== src/Handler/Responses/Runs.antt =====
-- The runs of proxyResponses: how they end, how long they are, and whom they ask.
use copilot_pool_gateway.Base.{
  ◌+◌, ◌≤◌, String, ◌≡◌, refl, sym, subst, ◌∙◌, Bool, true, false, List, [], ◌∷◌, some, arith,
  if◌then◌else◌, All, length,
}
use copilot_pool_gateway.Handler.Gateway.{Gateway, Env}
use copilot_pool_gateway.Handler.Routing.{is_pool}
use copilot_pool_gateway.Handler.Responses.{Request, Upstream, Call, Turn, max_attempts, new_turn}
use copilot_pool_gateway.Handler.Responses.Loop.{run_from, proxy_responses}
use copilot_pool_gateway.Handler.Responses.Bounds.{NoneOr, Fits, is_detached}
use copilot_pool_gateway.Handler.Binding.{Binding, bound, resolve_continuation_binding}
use copilot_pool_gateway.Handler.Responses.Start.{
  Start, rejected, begins, start_bound, start_responses, looked_up,
}
use copilot_pool_gateway.Handler.Responses.Endings.{is_reply, EndsRun, loop_start-Ends}
use copilot_pool_gateway.Handler.Responses.Begun.{IfBegins, start_responses-Begins}

NoneOrBegun : String → Start → Type 0
NoneOrBegun id (rejected reply) = Unit
NoneOrBegun id (begins t) = NoneOr id t.continuation_pinned

run_from-Ends :
    (up : Upstream) (env : Env) (q : Request) (s : Start × Gateway)
    → IfBegins q s.0
    → (id : String) × NoneOrBegun id s.0
      × EndsRun id (max_attempts q.caller + 2) (run_from up env q s)
unfolding EndsRun IfBegins NoneOrBegun
run_from-Ends up env q (rejected reply, g) h =
    ("", tt, record { replies = refl; few = omega arith; on_account = tt })
run_from-Ends up env q (begins t, g) h =
    let (id, b, e) =
      loop_start-Ends up env q (max_attempts q.caller + 1) t g h.coherent h.left
        (omega (arith, h.within)) in
    (
      id,
      b,
      record {
        replies = e.replies;
        few = omega (arith, e.few, h.within);
        on_account = e.on_account;
      },
    )

-- A request to /v1/responses always gets a reply, whatever the upstream answers and other requests
-- do meanwhile: the loop never runs out of attempts without one, although some attempts raise their
-- limit. It calls the upstream at most 5 times for the pool and 3 times for an account.
pub proxy_responses-replies :
    (up : Upstream) (env : Env) (q : Request) (g : Gateway)
    → (is_reply (proxy_responses up env q g).0.1 ≡ true)
      × (length (proxy_responses up env q g).0.0 ≤ (if is_pool q.caller then 5 else 3))
unfolding proxy_responses EndsRun
proxy_responses-replies up env q g =
    let (id, _, e) =
      run_from-Ends up env q (start_responses env q g) (start_responses-Begins env q g) in
    (e.replies, ground (arith, e.few))

-- All calls of the upstream that one request to /v1/responses makes are of one account, even for the
-- pool and after any failure; none is in a detached mode.
pub proxy_responses-one_account :
    (up : Upstream) (env : Env) (q : Request) (g : Gateway)
    → (id : String) × All
        (λ c. (c.account_id ≡ id) × (is_detached c.mode ≡ false))
        (proxy_responses up env q g).0.0
unfolding proxy_responses EndsRun
proxy_responses-one_account up env q g =
    let (id, _, e) =
      run_from-Ends up env q (start_responses env q g) (start_responses-Begins env q g) in
    (id, e.on_account)

begins_bound :
    (env : Env) (q : Request) (t : Turn) (b : Binding × Gateway) (id : String)
    → b.0 ≡ bound id
    → start_bound env q t b ≡ begins (record t { continuation_pinned = some id })
unfolding start_bound
begins_bound env q t (b, g) id e = rw e refl

start_responses-bound :
    (env : Env) (q : Request) (g : Gateway) (id : String)
    → (new_turn q).continuation_requested ≡ true
    → (resolve_continuation_binding env q.previous_response_id q.function_call_output_ids q.model
        (looked_up env q g)).0
      ≡ bound id
    → (start_responses env q g).0 ≡ begins (record (new_turn q) { continuation_pinned = some id })
unfolding start_responses
start_responses-bound env q g id h e =
    if_first (new_turn q).continuation_requested _ _ h
    ∙ begins_bound env q (new_turn q)
        (resolve_continuation_binding env q.previous_response_id q.function_call_output_ids q.model
          (looked_up env q g))
        id e
  where
    if_first : (b : Bool) (x y : Start × Gateway) → b ≡ true → (if b then x else y).0 ≡ x.0
    if_first b x y t = ground arith

on_account-All :
    (id : String) (calls : List Call) → All (Fits id) calls → All (λ c. c.account_id ≡ id) calls
on_account-All id [] h = tt
on_account-All id (c ∷ calls) h = (h.0.0, on_account-All id calls h.1)

-- A continuation that the caches bind to one account is only ever sent to that account.
pub proxy_responses-bound :
    (up : Upstream) (env : Env) (q : Request) (g : Gateway) (id : String)
    → (new_turn q).continuation_requested ≡ true
    → (resolve_continuation_binding env q.previous_response_id q.function_call_output_ids q.model
        (looked_up env q g)).0
      ≡ bound id
    → All (λ c. c.account_id ≡ id) (proxy_responses up env q g).0.0
unfolding proxy_responses EndsRun NoneOrBegun
proxy_responses-bound up env q g id h e =
    let (id', b, ends) =
      run_from-Ends up env q (start_responses env q g) (start_responses-Begins env q g) in
    let same = subst (NoneOrBegun id') (start_responses-bound env q g id h e) b in
    on_account-All id _
      (subst (λ i. All (Fits i) (proxy_responses up env q g).0.0) (sym same) ends.on_account)
