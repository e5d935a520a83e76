-- ===== src/Handler/Responses/Begun.antt =====
-- The turn that the loop of proxyResponses begins with.
use copilot_pool_gateway.Base.{
  ◌+◌, ◌≤◌, ◌≡◌, refl, sym, subst, Bool, true, false, not, ◌&&◌, [], none, arith, if◌then◌else◌,
  ltb,
}
use copilot_pool_gateway.Handler.Gateway.{Gateway, Env}
use copilot_pool_gateway.Handler.Routing.{Reply}
use copilot_pool_gateway.Handler.Responses.{Request, Turn, max_attempts, new_turn}
use copilot_pool_gateway.Handler.Responses.Bounds.{budget, is_some}
use copilot_pool_gateway.Handler.Responses.Turns.{Coherent, SamePins}
use copilot_pool_gateway.Handler.Binding.{
  Binding, write_session_binding_error, bound, unavailable, split_over, orphaned,
}
use copilot_pool_gateway.Handler.Responses.Start.{
  Start, rejected, begins, recover, start_orphan, pass_orphan, with_recovery_key, start_bound,
  start_responses,
}
use copilot_pool_gateway.Handler.Responses.{cleared, has_ids}
use copilot_pool_gateway.Handler.Recovery.{OrphanTranslateRoute, can_orphan_passthrough}

-- What holds of the turn that a request begins with.
pub record Begun (q : Request) (t : Turn) : Type 0 where
  pub coherent : Coherent t
  pub left : ltb t.attempt t.attempt_limit ≡ true
  pub within : budget t ≤ max_attempts q.caller + 2

unfoldable pub IfBegins : Request → Start → Type 0
IfBegins q (rejected reply) = Unit
IfBegins q (begins t) = Begun q t

if_IfBegins :
    (q : Request) (b : Bool) (x y : Start)
    → IfBegins q x
    → IfBegins q y
    → IfBegins q (if b then x else y)
if_IfBegins q true x y f g = f
if_IfBegins q false x y f g = g

rejected-IfBegins : (q : Request) (reply : Reply) → IfBegins q (rejected reply)
unfolding IfBegins
rejected-IfBegins q reply = tt

-- A turn that was not yet tried and continues nothing.
fresh-IfBegins :
    (q : Request) (t : Turn)
    → t.attempt ≡ 0
    → t.attempt_limit ≡ max_attempts q.caller
    → t.pinned_account ≡ none
    → t.same_turn_pinned ≡ none
    → (t.continuation_requested && not (is_some t.continuation_pinned)) ≡ false
    → t.cross_account_rollover ≡ false
    → IfBegins q (begins t)
unfolding IfBegins
fresh-IfBegins q t a l p s c r = record {
  coherent = record {
    pins = subst (SamePins t.pinned_account t.continuation_pinned) (sym s) p;
    continues = c;
    no_rollover = r;
  };
  left = ground arith;
  within = ground arith;
}

recover-Begins :
    (q : Request) (b : Binding) (route : OrphanTranslateRoute)
    → IfBegins q (recover q b route (new_turn q))
recover-Begins q b route =
    if_IfBegins q _ _ _ (fresh-IfBegins q _ refl refl refl refl refl refl) (rejected-IfBegins q _)

pass_orphan-Begins :
    (env : Env) (q : Request) (g : Gateway)
    → IfBegins q (pass_orphan env q g (with_recovery_key q (new_turn q)))
pass_orphan-Begins env q g = fresh-IfBegins q _ refl refl refl refl refl refl

degraded-Begins :
    (env : Env) (q : Request) (b : Bool)
    → IfBegins q (
        if b
        then begins (record (cleared (with_recovery_key q (new_turn q))) {
          degraded_body = true;
          orphan_degraded = true;
        })
        else rejected (write_session_binding_error orphaned))
degraded-Begins env q b =
    if_IfBegins q b _ _ (fresh-IfBegins q _ refl refl refl refl refl refl) (rejected-IfBegins q _)

start_orphan-Begins :
    (env : Env) (q : Request) (g : Gateway)
    → IfBegins q (start_orphan env q g (with_recovery_key q (new_turn q)))
start_orphan-Begins env q g =
    if_IfBegins q
      (not (new_turn q).degrade_opt_in
        && (not env.orphan_passthrough_off
            && (has_ids q.function_call_output_ids
                && can_orphan_passthrough env q.caller q.model [] g)))
      _ _ (pass_orphan-Begins env q g) (degraded-Begins env q _)

start_bound-Begins :
    (env : Env) (q : Request) (b : Binding × Gateway)
    → IfBegins q (start_bound env q (new_turn q) b)
unfolding start_bound
start_bound-Begins env q (bound id, g) = fresh-IfBegins q _ refl refl refl refl (ground arith) refl
start_bound-Begins env q (unavailable id, g) = recover-Begins q _ _
start_bound-Begins env q (split_over ids, g) = recover-Begins q _ _
start_bound-Begins env q (orphaned, g) = start_orphan-Begins env q g

pub start_responses-Begins :
    (env : Env) (q : Request) (g : Gateway) → IfBegins q (start_responses env q g).0
unfolding start_responses
start_responses-Begins env q g =
    if_pair (new_turn q).continuation_requested _ _ (start_bound-Begins env q _)
      (λ e. fresh-IfBegins q (new_turn q) refl refl refl refl (ground arith) refl)
  where
    if_pair :
        (b : Bool) (x y : Start × Gateway)
        → IfBegins q x.0
        → (b ≡ false → IfBegins q y.0)
        → IfBegins q (if b then x else y).0
    if_pair true x y f g' = f
    if_pair false x y f g' = g' refl
