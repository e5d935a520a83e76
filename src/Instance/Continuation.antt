-- ===== src/Instance/Continuation.antt =====
-- instance/responses_replay.go: the items of a continuation, and the rewriting of a request that
-- continues an earlier response. A body is its JSON value, and cloneJSONValue gives that value
-- again. The names of a map's fields differ, so one pass over them deletes and sets.
pub mod Degrade
pub mod Scrubbed
pub mod Plain
pub mod Loop
pub mod Degraded
pub mod Rewrite
pub mod Answered
pub mod Capture
use copilot_pool_gateway.Base.{
  String, Bool, true, false, not, ◌||◌, ◌&&◌, List, [], ◌∷◌, Option, none, some, ◌==◌, ◌⊎◌, inl,
  inr, if◌then◌else◌, trim, to_lower, has_suffix,
}
use copilot_pool_gateway.Base.Json.{
  Json, null, boolean, number, text, array, object, Items, nil, cons, Fields, end, field, field_of,
  set_field, delete_field, text_field,
}
use copilot_pool_gateway.Instance.Turns.{unique_trimmed}
use copilot_pool_gateway.Instance.ToolValidation.{MessagesRewriteError, is_empty, compare_ids}

-- normalizeResponsesInput; `none` is the error.
unfoldable pub normalize_responses_input : Option Json → Option Items
normalize_responses_input none = some nil
normalize_responses_input (some null) = some nil
normalize_responses_input (some (array items)) = some items
normalize_responses_input (some (object fs)) = some (cons (object fs) nil)
normalize_responses_input (some (text s)) =
    some (cons (object (field "role" (text "user") (field "content" (text s) end))) nil)
normalize_responses_input (some (boolean b)) = none
normalize_responses_input (some (number n)) = none

abbrev pub normal_type : Fields → String
normal_type fs = trim (to_lower (text_field "type" fs))

unfoldable pub is_reference : String → Bool
is_reference item_type = item_type == "item_reference" || has_suffix "_reference" item_type

abbrev pub put_item : Option Json → Items → Items
put_item none items = items
put_item (some item) items = cons item items

unfoldable mutual
  unfolding is_reference

  -- scrubResponsesContinuationItem
  pub scrub_item : Json → Option Json
  scrub_item (object fs) =
      let cleaned = scrub_fields fs in
      if is_reference (normal_type fs) then none else some (object cleaned)
  scrub_item null = some null
  scrub_item (boolean b) = some (boolean b)
  scrub_item (number n) = some (number n)
  scrub_item (text s) = some (text s)
  scrub_item (array items) = some (array items)

  -- The fields, without `id`, and with the items of `content` scrubbed.
  pub scrub_fields : Fields → Fields
  scrub_fields end = end
  scrub_fields (field k v fs) =
      let rest = scrub_fields fs in
      let content = scrub_content v in
      if k == "id" then rest else if k == "content" then field k content rest else field k v rest

  pub scrub_content : Json → Json
  scrub_content (array items) = array (scrub_items items)
  scrub_content null = null
  scrub_content (boolean b) = boolean b
  scrub_content (number n) = number n
  scrub_content (text s) = text s
  scrub_content (object fs) = object fs

  -- scrubResponsesContinuationItems
  pub scrub_items : Items → Items
  scrub_items nil = nil
  scrub_items (cons item items) = put_item (scrub_item item) (scrub_items items)

abbrev pub scrub_some : Option Items → Option Items
scrub_some none = none
scrub_some (some items) = some (scrub_items items)

-- normalizeResponsesContinuationInput
unfoldable pub normalize_responses_continuation_input : Option Json → Option Items
unfolding normalize_responses_input
normalize_responses_continuation_input input = scrub_some (normalize_responses_input input)

-- isResponsesFunctionCallType, isResponsesFunctionCallOutputType
unfoldable pub is_responses_function_call_type : String → Bool
is_responses_function_call_type item_type =
    let normalized = trim (to_lower item_type) in
    normalized == "function_call" || normalized == "custom_tool_call"

unfoldable pub is_responses_function_call_output_type : String → Bool
is_responses_function_call_output_type item_type =
    let normalized = trim (to_lower item_type) in
    normalized == "function_call_output" || normalized == "custom_tool_call_output"

-- The identifiers that are not blank, of the items of the types that `wanted` takes.
unfoldable pub call_ids : (String → Bool) → Items → List String
call_ids wanted nil = []
call_ids wanted (cons (object fs) items) =
    let rest = call_ids wanted items in
    if wanted (text_field "type" fs) && not (trim (text_field "call_id" fs) == "")
    then text_field "call_id" fs ∷ rest
    else rest
call_ids wanted (cons _ items) = call_ids wanted items

-- collectResponsesFunctionCallIDs, collectResponsesFunctionCallOutputIDs
unfoldable pub collect_responses_function_call_ids : Items → List String
unfolding is_responses_function_call_type call_ids
collect_responses_function_call_ids items =
    unique_trimmed (call_ids is_responses_function_call_type items)

unfoldable pub collect_responses_function_call_output_ids : Items → List String
unfolding is_responses_function_call_output_type call_ids
collect_responses_function_call_output_ids items =
    unique_trimmed (call_ids is_responses_function_call_output_type items)

-- isReplayableResponseItem
unfoldable pub is_replayable_response_item : Json → Bool
is_replayable_response_item (object fs) =
    let item_type = text_field "type" fs in
    item_type == "reasoning" || (item_type == "function_call" || item_type == "custom_tool_call")
is_replayable_response_item _ = false

-- extractReplayItems
unfoldable pub extract_replay_items : Items → Items
unfolding is_replayable_response_item
extract_replay_items nil = nil
extract_replay_items (cons item items) =
    let rest = extract_replay_items items in
    if is_replayable_response_item item then cons item rest else rest
