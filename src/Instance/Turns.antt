-- ===== src/Instance/Turns.antt =====
-- instance/copilot_turns.go: which account, and which Copilot conversation, a response, a function
-- call or a message's tool call belongs to. Times are numbers of nanoseconds; a call reads the
-- clock once here. The order of a map's entries stands for the one in which `range` meets them.
pub mod Cache
pub mod Bindings
pub mod Session
use copilot_pool_gateway.Base.{String, List, [], ◌∷◌, ◌==◌, ◌||◌, Bool, if◌then◌else◌, exists, trim}

-- copilotTurnContext
pub record TurnContext : Type 0 where
  pub interaction_id : String
  pub client_session_id : String
  pub agent_task_id : String

-- The loop of uniqueTrimmed, with the values seen so far.
unfoldable pub unseen : List String → List String → List String
unseen seen [] = []
unseen seen (value ∷ rest) =
    let value' = trim value in
    let skipped = unseen seen rest in
    let kept = unseen (value' ∷ seen) rest in
    if value' == "" || exists (λ v. v == value') seen then skipped else value' ∷ kept

-- uniqueTrimmed
unfoldable pub unique_trimmed : List String → List String
unfolding unseen
unique_trimmed values = unseen [] values
