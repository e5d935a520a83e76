-- ===== src/Instance/Continuation/Rewrite.antt =====
-- instance/responses_replay.go: the rewriting of a request that continues an earlier response into
-- one that repeats it. `load` is loadResponsesReplay for the account, or
-- loadResponsesReplayAny, as Instance.Replay has them; an error carries what its text is made of.
use copilot_pool_gateway.Base.{
  String, Bool, true, false, Option, none, some, ◌==◌, ◌⊎◌, inl, inr, if◌then◌else◌, trim,
}
use copilot_pool_gateway.Base.Json.{
  array, Items, nil, cons, Fields, field_of, set_field, delete_field, text_field,
}
use copilot_pool_gateway.Instance.ToolValidation.{MessagesRewriteError, is_empty, compare_ids}
use copilot_pool_gateway.Instance.Continuation.{
  normalize_responses_continuation_input, collect_responses_function_call_ids,
  collect_responses_function_call_output_ids,
}

-- responsesReplayEntry, as far as it is read here
pub record Recorded : Type 0 where
  pub input : Items
  pub replay_items : Items

-- ResponsesRewriteError
pub data ResponsesRewriteError : Type 0 where
  not_found : String → ResponsesRewriteError
  not_replayable : String → ResponsesRewriteError
  invalid_input : ResponsesRewriteError
  wrong_outputs : MessagesRewriteError → ResponsesRewriteError

-- validateResponsesContinuationToolOutputs
unfoldable pub validate_responses_continuation_tool_outputs :
    Recorded → Items → Option MessagesRewriteError
unfolding collect_responses_function_call_ids collect_responses_function_call_output_ids compare_ids
validate_responses_continuation_tool_outputs entry current_input =
    let pending = collect_responses_function_call_ids entry.replay_items in
    let provided = collect_responses_function_call_output_ids current_input in
    if is_empty pending then none else compare_ids provided pending

unfoldable pub append_items : Items → Items → Items
append_items nil more = more
append_items (cons item items) more = cons item (append_items items more)

abbrev pub no_items : Items → Bool
no_items nil = true
no_items (cons item items) = false

abbrev pub rebuilt : Recorded → Items → Fields → Fields
rebuilt entry current payload = delete_field "previous_response_id" (
    set_field "input" (array (append_items entry.input (append_items entry.replay_items current)))
      payload)

abbrev pub answer :
    Recorded → Items → Fields → Option MessagesRewriteError → ResponsesRewriteError ⊎ Fields
answer entry current payload (some error) = inl (wrong_outputs error)
answer entry current payload none = inr (rebuilt entry current payload)

abbrev pub with_input : Recorded → Fields → Option Items → ResponsesRewriteError ⊎ Fields
with_input entry payload none = inl invalid_input
with_input entry payload (some current) =
    answer entry current payload (validate_responses_continuation_tool_outputs entry current)

abbrev pub with_entry : String → Fields → Option Recorded → ResponsesRewriteError ⊎ Fields
with_entry previous payload none = inl (not_found previous)
with_entry previous payload (some entry) =
    if no_items entry.replay_items
    then inl (not_replayable previous)
    else with_input entry payload
        (normalize_responses_continuation_input (field_of "input" payload))

-- rewritePreviousResponseContinuationWithMode
unfoldable pub rewrite_previous_response_continuation_with_mode :
    (String → Option Recorded) → Fields → ResponsesRewriteError ⊎ Fields
unfolding validate_responses_continuation_tool_outputs normalize_responses_continuation_input
    append_items
rewrite_previous_response_continuation_with_mode load payload =
    let previous = trim (text_field "previous_response_id" payload) in
    if previous == "" then inr payload else with_entry previous payload (load previous)
