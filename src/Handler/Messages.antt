-- ===== src/Handler/Messages.antt =====
-- handler/proxy.go: proxyMessages. Logs are left out, and so is what forwarding a response stores.
pub mod Choice
pub mod Loop
pub mod Detached
pub mod Repeats
use copilot_pool_gateway.Base.{
  ℕ, zero, suc, ◌+◌, String, Bool, true, false, not, ◌&&◌, ◌||◌, List, [], ◌∷◌, Option, none, some,
  ◌==◌, if◌then◌else◌, eqb, leb, ltb, trim,
}
use copilot_pool_gateway.Instance.Turns.Bindings.{TurnStore, lookup_call_account}
use copilot_pool_gateway.Handler.Affinity.{
  Affinity, lookup_messages_session_affinity, bind_session_affinity,
}
use copilot_pool_gateway.Handler.Gateway.{
  Gateway, Env, Response, accounts_of, note_request, check_limit, is_retryable_status,
  disable_on_fatal_upstream,
}
use copilot_pool_gateway.Handler.Routing.{
  Reply, failure, forwarded, Caller, is_pool, Resolved, found, refused, member, resolve_state,
  resolve_known_account,
}
use copilot_pool_gateway.Handler.Responses.{Answer, rewrite_error, proxy_error, answered, Upstream}
use copilot_pool_gateway.Handler.Responses.Answers.{read_replay_invalid_response}

pub record MessagesRequest : Type 0 where
  pub caller : Caller
  pub model : String
  pub affinity_key : String
  pub tool_result_ids : List String

abbrev pub has_ids : List String → Bool
has_ids [] = false
has_ids (id ∷ ids) = true

abbrev pub continues : MessagesRequest → Bool
continues q = has_ids q.tool_result_ids

-- The variables of the loop; `retry_account_id` is sameAccountDetachedRetryAccountID.
pub record MessagesTurn : Type 0 where
  pub exclude : List String
  pub cross_account_rollover : Bool
  pub retry_account_id : String

-- A call of the upstream: the account, and whether it was DoDetachedMessagesProxy.
abbrev pub Call : Type 0
Call = String × Bool

abbrev pub Run : Type 0
Run = (List Call × Reply) × Gateway

abbrev pub Next : Type 0
Next = Option (MessagesTurn → Gateway → Run)

abbrev pub same_account : String → MessagesTurn → MessagesTurn
same_account id t = record t { retry_account_id = trim id }

abbrev pub other_account : String → MessagesTurn → MessagesTurn
other_account id t = record {
  exclude = id ∷ t.exclude;
  cross_account_rollover = true;
  retry_account_id = "";
}

abbrev pub excluding : String → MessagesTurn → MessagesTurn
excluding id t = record t { exclude = id ∷ t.exclude }

abbrev pub new_turn : MessagesTurn
new_turn = record { exclude = []; cross_account_rollover = false; retry_account_id = "" }
