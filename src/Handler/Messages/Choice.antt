-- ===== src/Handler/Messages/Choice.antt =====
-- handler/proxy.go: the account of an attempt of proxyMessages.
use copilot_pool_gateway.Base.{
  ℕ, String, Bool, true, false, not, ◌&&◌, ◌||◌, ◌∷◌, Option, none, some, ◌==◌, if◌then◌else◌,
}
use copilot_pool_gateway.Instance.Turns.Bindings.{lookup_call_account}
use copilot_pool_gateway.Handler.Affinity.{Affinity, lookup_messages_session_affinity}
use copilot_pool_gateway.Handler.Gateway.{Gateway, Env, accounts_of}
use copilot_pool_gateway.Handler.Routing.{
  is_pool, Resolved, found, refused, member, resolve_state, resolve_known_account,
}
use copilot_pool_gateway.Handler.Messages.{continues, MessagesRequest, MessagesTurn}

-- `replayBound`, with the account.
pub data Choice : Type 0 where
  chosen : Bool → String → Choice
  no_choice : ℕ → String → Choice

abbrev pub from_state : Resolved × Gateway → Choice × Gateway
from_state (found id, g) = (chosen false id, g)
from_state (refused code text, g) = (no_choice code text, g)

abbrev pub by_state : Env → MessagesRequest → MessagesTurn → Gateway → Choice × Gateway
by_state env q t g = from_state (resolve_state env q.caller "" t.exclude q.model g)

abbrev pub or_by_state :
    Env → MessagesRequest → MessagesTurn → Option String × Affinity → Gateway → Choice × Gateway
or_by_state env q t (some id, m) g = (chosen false id, record g { messages_affinity = m })
or_by_state env q t (none, m) g = by_state env q t (record g { messages_affinity = m })

abbrev pub by_affinity : Env → MessagesRequest → MessagesTurn → Gateway → Choice × Gateway
by_affinity env q t g =
    if q.affinity_key == ""
    then by_state env q t g
    else or_by_state env q t
        (lookup_messages_session_affinity (accounts_of g) env.now q.affinity_key q.model
          (λ id. member id t.exclude) g.messages_affinity)
        g

abbrev pub known : String → Option String → Gateway → Option String
known model none g = none
known model (some id) g = resolve_known_account id model g

abbrev pub or_by_affinity :
    Env → MessagesRequest → MessagesTurn → Option String → Gateway → Choice × Gateway
or_by_affinity env q t (some id) g = (chosen true id, g)
or_by_affinity env q t none g = by_affinity env q t g

-- resolveStateForMessageReplay
unfoldable pub resolve_state_for_message_replay :
    Env → MessagesRequest → Gateway → Option String × Gateway
resolve_state_for_message_replay env q g =
    let (found_id, turns) =
      lookup_call_account env.metadata env.now q.tool_result_ids g.tool_call_turns in
    (known q.model found_id g, record g { tool_call_turns = turns })

-- Where no account is to be asked again: the replay's, the session's, or any.
abbrev pub choose_fresh : Env → MessagesRequest → MessagesTurn → Gateway → Choice × Gateway
choose_fresh env q t g =
    if continues q && not t.cross_account_rollover
    then (let (bound, g') = resolve_state_for_message_replay env q g in
        or_by_affinity env q t bound g')
    else by_affinity env q t g

-- The account to ask again is gone.
abbrev pub given_up : MessagesRequest → MessagesTurn → MessagesTurn
given_up q t = record {
  exclude = if is_pool q.caller then t.retry_account_id ∷ t.exclude else t.exclude;
  cross_account_rollover = t.cross_account_rollover || is_pool q.caller;
  retry_account_id = "";
}

abbrev pub again_or_fresh :
    Env
    → MessagesRequest
    → MessagesTurn
    → Option String
    → Gateway
    → (Choice × Gateway) × MessagesTurn
again_or_fresh env q t (some id) g = ((chosen false id, g), t)
again_or_fresh env q t none g = (choose_fresh env q (given_up q t) g, given_up q t)

-- The account of an attempt, and the loop's variables after the choice.
unfoldable pub choose_account :
    Env → MessagesRequest → MessagesTurn → Gateway → (Choice × Gateway) × MessagesTurn
unfolding resolve_state_for_message_replay
choose_account env q t g =
    if t.retry_account_id == ""
    then (choose_fresh env q t g, t)
    else again_or_fresh env q t (resolve_known_account t.retry_account_id q.model g) g
