-- ===== src/Handler/Responses.antt =====
-- handler/proxy.go: proxyResponses. An attempt's call of the upstream, and the refresh of a token,
-- are answered from outside; while a call is under way, other requests and the background may
-- change the gateway in any way. Logs and telemetry are left out, and so is what
-- ForwardResponsesResponse stores after the last call.
pub mod Start
pub mod Answers
pub mod Attempt
pub mod Loop
pub mod Bounds
pub mod Turns
pub mod Endings
pub mod Begun
pub mod Runs
use copilot_pool_gateway.Base.{
  ℕ, zero, suc, ◌+◌, String, Bool, true, false, not, ◌||◌, ◌&&◌, List, [], ◌∷◌, ◌++◌, Option, none,
  some, ◌==◌, if◌then◌else◌, to_lower, ltb, eqb, contains,
}
use copilot_pool_gateway.Instance.Turns.Bindings.{lookup_turn_account, lookup_call_account}
use copilot_pool_gateway.Instance.Replay.{
  ReplayStore, lookup_responses_replay_account, can_replay_responses_continuation,
}
use copilot_pool_gateway.Instance.Registry.{get_instance_state}
use copilot_pool_gateway.Handler.Gateway.{
  Gateway, Env, Response, note_request, check_limit, is_retryable_status, disable_on_fatal_upstream,
}
use copilot_pool_gateway.Handler.Routing.{
  Reply, failure, forwarded, Caller, is_pool, Resolved, found, refused, member, resolve_state,
}
use copilot_pool_gateway.Handler.Recovery.{
  OrphanTranslateRoute, no_route, chat, messages, can_orphan_passthrough,
  worker_disabled_account_ids, resolve_orphan_recovery_state,
}
use copilot_pool_gateway.Handler.Binding.{
  Binding, bound, unavailable, split_over, orphaned, resolve_continuation_binding,
  write_session_binding_error,
}

-- What the request's headers and body say: `degrades` is whether DegradeOrphanContinuationPayload
-- changes the body, and a key is empty where there is none.
pub record Request : Type 0 where
  pub caller : Caller
  pub model : String
  pub affinity_key : String
  pub recovery_key : String
  pub previous_response_id : String
  pub function_call_output_ids : List String
  pub opts_in : Bool
  pub degrades : Bool

-- The answers from outside, by the number of the attempt.
pub data Answer : Type 0 where
  rewrite_error proxy_error : Answer
  answered : Response → Answer

pub record Upstream : Type 0 where
  pub answer : ℕ → Answer
  pub refreshes : ℕ → Bool
  pub meanwhile : ℕ → Gateway → Gateway

pub data Mode : Type 0 where
  direct detached_cross detached_same orphan_translate orphan_translate_messages : Mode

-- A call of the upstream.
pub record Call : Type 0 where
  pub account_id : String
  pub mode : Mode
  pub degraded_body : Bool
  pub with_turn : Bool

-- The variables of the loop.
pub record Turn : Type 0 where
  pub attempt : ℕ
  pub attempt_limit : ℕ
  pub affinity_key : String
  pub previous_response_id : String
  pub continuation_requested : Bool
  pub degrade_opt_in : Bool
  pub exclude : List String
  pub refreshed_on_account : List String
  pub cross_account_rollover : Bool
  pub degraded_body : Bool
  pub orphan_degraded : Bool
  pub recovery : OrphanTranslateRoute
  pub pinned_account : Option String
  pub continuation_pinned : Option String
  pub same_turn_pinned : Option String
  pub with_turn : Bool

abbrev pub max_attempts : Caller → ℕ
max_attempts caller = if is_pool caller then 3 else 1

abbrev pub is_armed : OrphanTranslateRoute → Bool
is_armed no_route = false
is_armed _ = true

abbrev pub has_ids : List String → Bool
has_ids [] = false
has_ids (id ∷ ids) = true

abbrev pub new_turn : Request → Turn
new_turn q =
    let continues = not (q.previous_response_id == "") || has_ids q.function_call_output_ids in
    record {
      attempt = 0;
      attempt_limit = max_attempts q.caller;
      affinity_key = q.affinity_key;
      previous_response_id = q.previous_response_id;
      continuation_requested = continues;
      degrade_opt_in = continues && q.opts_in;
      exclude = [];
      refreshed_on_account = [];
      cross_account_rollover = false;
      degraded_body = false;
      orphan_degraded = false;
      recovery = no_route;
      pinned_account = none;
      continuation_pinned = none;
      same_turn_pinned = none;
      with_turn = false;
    }

-- `previousResponseID = ""; functionCallOutputIDs = nil; continuationRequested = false`
abbrev pub cleared : Turn → Turn
cleared t = record t { previous_response_id = ""; continuation_requested = false }

-- An attempt ends the request, or the loop goes on.
pub data Step : Type 0 where
  stop : List Call → Reply → Step
  again : Call → Turn → Step

abbrev pub attempts_left : Turn → Bool
attempts_left t = ltb (t.attempt + 1) t.attempt_limit

abbrev pub next_attempt : Turn → Turn
next_attempt t = record t { attempt = t.attempt + 1 }

abbrev pub excluding : String → Turn → Turn
excluding id t = record (next_attempt t) { exclude = id ∷ t.exclude }

abbrev pub rolling_over : String → Turn → Turn
rolling_over id t = record (excluding id t) { cross_account_rollover = true }
