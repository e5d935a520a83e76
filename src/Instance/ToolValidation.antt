-- ===== src/Instance/ToolValidation.antt =====
-- instance/tool_validation.go: whether the tool results of a request answer the tool uses before
-- it. A message's blocks are what ParseContentBlocksPublic makes of its content. An error carries
-- the lists that its text is made of.
pub mod Matching
pub mod Newest
use copilot_pool_gateway.Base.{
  String, Bool, true, false, not, ◌&&◌, List, [], ◌∷◌, ◌++◌, Option, none, some, ◌==◌,
  if◌then◌else◌, keep, trim,
}
use copilot_pool_gateway.Instance.Turns.{unique_trimmed}
use copilot_pool_gateway.Instance.Turns.Session.{member}

-- anthropic.ContentBlock, as far as it is read here
pub record ContentBlock : Type 0 where
  pub kind : String
  pub id : String
  pub tool_use_id : String

pub record AnthropicMessage : Type 0 where
  pub role : String
  pub blocks : List ContentBlock

pub data MessagesRewriteError : Type 0 where
  no_tool_use : MessagesRewriteError
  mismatch : List String → List String → List String → MessagesRewriteError

-- The trimmed identifiers, of the blocks of a kind, that are not blank.
ids_of : String → (ContentBlock → String) → List ContentBlock → List String
ids_of kind id [] = []
ids_of kind id (b ∷ rest) =
    let more = ids_of kind id rest in
    if b.kind == kind && not (trim (id b) == "") then trim (id b) ∷ more else more

-- collectAnthropicToolUseIDs
unfoldable pub collect_anthropic_tool_use_ids : List ContentBlock → List String
unfolding ids_of
collect_anthropic_tool_use_ids blocks = unique_trimmed (ids_of "tool_use" (λ b. b.id) blocks)

-- collectAnthropicToolResultIDs
unfoldable pub collect_anthropic_tool_result_ids : List ContentBlock → List String
unfolding ids_of
collect_anthropic_tool_result_ids blocks =
    unique_trimmed (ids_of "tool_result" (λ b. b.tool_use_id) blocks)

-- The loop of latestAnthropicToolResultIDs, from the newest message on.
unfoldable pub result_ids_from : List AnthropicMessage → List String
unfolding collect_anthropic_tool_result_ids
result_ids_from [] = []
result_ids_from (m ∷ rest) =
    let earlier = result_ids_from rest in
    if m.role == "user" then collect_anthropic_tool_result_ids m.blocks else earlier

abbrev pub is_empty : List String → Bool
is_empty [] = true
is_empty (x ∷ xs) = false

-- The loop of latestAnthropicPendingToolUseIDs, from the newest message on.
unfoldable pub pending_ids_from : Bool → List AnthropicMessage → List String
unfolding collect_anthropic_tool_use_ids collect_anthropic_tool_result_ids
pending_ids_from seen [] = []
pending_ids_from seen (m ∷ rest) =
    let after_user =
      pending_ids_from
        (if is_empty (collect_anthropic_tool_result_ids m.blocks) then seen else true) rest in
    let after_other = pending_ids_from seen rest in
    if m.role == "user"
    then after_user
    else if m.role == "assistant" && seen
    then collect_anthropic_tool_use_ids m.blocks
    else after_other

pub newest_first : List AnthropicMessage → List AnthropicMessage
newest_first [] = []
newest_first (m ∷ rest) = newest_first rest ++ (m ∷ [])

-- latestAnthropicToolResultIDs
unfoldable pub latest_anthropic_tool_result_ids : List AnthropicMessage → List String
unfolding newest_first result_ids_from
latest_anthropic_tool_result_ids messages = result_ids_from (newest_first messages)

-- latestAnthropicPendingToolUseIDs
unfoldable pub latest_anthropic_pending_tool_use_ids : List AnthropicMessage → List String
unfolding newest_first pending_ids_from
latest_anthropic_pending_tool_use_ids messages = pending_ids_from false (newest_first messages)

-- diffExpectedStrings
unfoldable pub diff_expected_strings : List String → List String → List String
diff_expected_strings expected provided =
    keep (λ value. not (member value (unique_trimmed provided))) (unique_trimmed expected)

-- The comparison, for results and uses that are there.
unfoldable pub compare_ids : List String → List String → Option MessagesRewriteError
unfolding diff_expected_strings
compare_ids provided pending =
    let missing = diff_expected_strings pending provided in
    let unexpected = diff_expected_strings provided pending in
    if is_empty missing && is_empty unexpected
    then none
    else some (mismatch pending missing unexpected)

-- validateAnthropicToolContinuation
unfoldable pub validate_anthropic_tool_continuation :
    List AnthropicMessage → Option MessagesRewriteError
unfolding compare_ids latest_anthropic_tool_result_ids latest_anthropic_pending_tool_use_ids
validate_anthropic_tool_continuation messages =
    let provided = latest_anthropic_tool_result_ids messages in
    let pending = latest_anthropic_pending_tool_use_ids messages in
    if is_empty provided
    then none
    else if is_empty pending
    then some no_tool_use
    else compare_ids provided pending
