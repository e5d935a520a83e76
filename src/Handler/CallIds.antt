-- ===== src/Handler/CallIds.antt =====
-- handler/proxy.go: the identifiers of function calls in the body of a request to /v1/responses. A
-- body is its JSON value: one that does not parse has no fields.
pub mod Canonical
pub mod Sent
use copilot_pool_gateway.Base.{
  ℕ, String, Bool, true, false, not, ◌||◌, ◌&&◌, List, [], ◌∷◌, Option, none, some, ◌==◌,
  if◌then◌else◌, eqb, trim, to_lower, has_prefix, length_bytes, take_bytes, drop_text, append_text,
}
use copilot_pool_gateway.Base.Json.{
  Json, null, boolean, number, text, array, object, Items, nil, cons, Fields, end, field, field_of,
  set_field, text_field,
}
use copilot_pool_gateway.Instance.Turns.{unique_trimmed}

-- canonicalizeCopilotCallID, as `json.Marshal` writes the result where the slice cuts a character
unfoldable pub canonicalize_copilot_call_id : String → String
canonicalize_copilot_call_id id =
    if has_prefix "call_" id
    then id
    else if not (eqb (length_bytes id) 40) || not (has_prefix "call" id)
    then id
    else append_text "call_" (take_bytes 24 (drop_text 4 id))

abbrev pub item_type : Fields → String
item_type fs = trim (to_lower (text_field "type" fs))

abbrev pub is_call_item : Fields → Bool
is_call_item fs =
    item_type fs == "function_call"
    || (item_type fs == "function_call_output"
        || (item_type fs == "custom_tool_call" || item_type fs == "custom_tool_call_output"))

abbrev pub is_output_item : Fields → Bool
is_output_item fs =
    item_type fs == "function_call_output" || item_type fs == "custom_tool_call_output"

abbrev pub canonical_id : String → String
canonical_id call_id = canonicalize_copilot_call_id (trim call_id)

abbrev pub rewrite_fields : Fields → Fields
rewrite_fields fs =
    let call_id = text_field "call_id" fs in
    if is_call_item fs && not (canonical_id call_id == call_id)
    then set_field "call_id" (text (canonical_id call_id)) fs
    else fs

-- `rewrite`
abbrev pub rewrite_item : Json → Json
rewrite_item (object fs) = object (rewrite_fields fs)
rewrite_item j = j

unfoldable pub rewrite_items : Items → Items
unfolding canonicalize_copilot_call_id
rewrite_items nil = nil
rewrite_items (cons j items) = cons (rewrite_item j) (rewrite_items items)

abbrev pub rewrite_input : Option Json → Fields → Fields
rewrite_input (some (array items)) fs = set_field "input" (array (rewrite_items items)) fs
rewrite_input (some (object item)) fs = set_field "input" (object (rewrite_fields item)) fs
rewrite_input _ fs = fs

-- rewriteFunctionCallOutputCallIDs
unfoldable pub rewrite_function_call_output_call_ids : Json → Json
unfolding rewrite_items canonicalize_copilot_call_id
rewrite_function_call_output_call_ids (object fs) = object (rewrite_input (field_of "input" fs) fs)
rewrite_function_call_output_call_ids j = j

-- `collect`
abbrev pub collect_item : Json → List String → List String
collect_item (object fs) ids =
    if is_output_item fs && not (trim (text_field "call_id" fs) == "")
    then text_field "call_id" fs ∷ ids
    else ids
collect_item j ids = ids

unfoldable pub collect_items : Items → List String
collect_items nil = []
collect_items (cons j items) = collect_item j (collect_items items)

abbrev pub collect_input : Option Json → List String
collect_input (some (array items)) = collect_items items
collect_input (some (object fs)) = collect_item (object fs) []
collect_input _ = []

abbrev pub output_ids : Json → List String
output_ids (object fs) = collect_input (field_of "input" fs)
output_ids j = []

-- extractResponseFunctionCallOutputIDs
unfoldable pub extract_response_function_call_output_ids : Json → List String
unfolding unique_trimmed collect_items
extract_response_function_call_output_ids body = unique_trimmed (output_ids body)
