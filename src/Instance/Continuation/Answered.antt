-- ===== src/Instance/Continuation/Answered.antt =====
-- Which continuations are rewritten.
use copilot_pool_gateway.Base.{
  String, ◌≡◌, refl, sym, ap, ◌∙◌, Bool, true, false, not, ◌||◌, ◌&&◌, List, ◌∷◌, Option, none,
  some, arith, ◌==◌, eq_iff, ◌⊎◌, ◌↔◌, inl, inr, if◌then◌else◌, trim, to_lower, has_suffix,
  Bool-cases,
}
use copilot_pool_gateway.Base.Json.{
  null, boolean, number, text, array, object, Items, nil, cons, Fields, field_of, text_field,
  text_or_empty,
}
use copilot_pool_gateway.Instance.Turns.{unique_trimmed}
use copilot_pool_gateway.Instance.Continuation.{
  normalize_responses_input, normalize_responses_continuation_input,
  collect_responses_function_call_ids, is_reference, normal_type, put_item, scrub_fields,
  scrub_items, scrub_some, call_ids, is_responses_function_call_output_type,
  collect_responses_function_call_output_ids,
}
use copilot_pool_gateway.Instance.Continuation.Scrubbed.{field_of-scrub_fields}
use copilot_pool_gateway.Instance.Continuation.Rewrite.{
  Recorded, ResponsesRewriteError, not_replayable, validate_responses_continuation_tool_outputs,
  no_items, rebuilt, answer, with_input, with_entry,
  rewrite_previous_response_continuation_with_mode,
}
use copilot_pool_gateway.Instance.Turns.Session.{member}
use copilot_pool_gateway.Instance.ToolValidation.{MessagesRewriteError, is_empty, compare_ids}
use copilot_pool_gateway.Instance.ToolValidation.Matching.{member-unique_trimmed, compare_ids_iff}

output_not_reference :
    (item_type : String)
    → is_responses_function_call_output_type item_type ≡ true
    → is_reference (trim (to_lower item_type)) ≡ false
unfolding is_responses_function_call_output_type is_reference has_suffix
output_not_reference item_type h = either (trim (to_lower item_type)) h
  where
    either :
        (s : String)
        → (s == "function_call_output") || (s == "custom_tool_call_output") ≡ true
        → is_reference s ≡ false
    either s h = elim (Bool-cases (s == "function_call_output")) [
      | inl e ↦ ap is_reference ((eq_iff s "function_call_output").0 e) ∙ refl
      | inr e ↦
          ap is_reference ((eq_iff s "custom_tool_call_output").0 (ground (arith, e, h))) ∙ refl
    ]

put_outputs : Bool → String → List String → List String
put_outputs output id rest = if output && not (trim id == "") then id ∷ rest else rest

no_output :
    (output : Bool) (id : String) (rest : List String)
    → (output ≡ true → true ≡ false)
    → rest ≡ put_outputs output id rest
unfolding put_outputs
no_output true id rest h = absurd (ground (arith, h refl))
no_output false id rest h = refl

call_ids-put_item :
    (reference : Bool) (fs : Fields) (items : Items)
    → (is_responses_function_call_output_type (text_field "type" fs) ≡ true → reference ≡ false)
    → call_ids is_responses_function_call_output_type
        (put_item (if reference then none else some (object (scrub_fields fs))) items)
      ≡ put_outputs
          (is_responses_function_call_output_type (text_field "type" fs))
          (text_field "call_id" fs)
          (call_ids is_responses_function_call_output_type items)
unfolding call_ids put_outputs
call_ids-put_item true fs items h = no_output _ (text_field "call_id" fs) _ h
call_ids-put_item false fs items h =
    ap
      (λ t.
        put_outputs (is_responses_function_call_output_type (text_or_empty t))
          (text_field "call_id" (scrub_fields fs))
          (call_ids is_responses_function_call_output_type items))
      (field_of-scrub_fields "type" refl refl fs)
    ∙ ap
        (λ t.
          put_outputs (is_responses_function_call_output_type (text_field "type" fs))
            (text_or_empty t) (call_ids is_responses_function_call_output_type items))
        (field_of-scrub_fields "call_id" refl refl fs)

-- No output of a call is lost in the scrubbing.
call_ids-scrub_items :
    (items : Items)
    → call_ids is_responses_function_call_output_type (scrub_items items)
      ≡ call_ids is_responses_function_call_output_type items
unfolding call_ids scrub_items put_outputs
call_ids-scrub_items nil = refl
call_ids-scrub_items (cons (object fs) items) =
    call_ids-put_item (is_reference (normal_type fs)) fs (scrub_items items)
      (output_not_reference (text_field "type" fs))
    ∙ ap
        (put_outputs (is_responses_function_call_output_type (text_field "type" fs))
          (text_field "call_id" fs))
        (call_ids-scrub_items items)
call_ids-scrub_items (cons null items) = call_ids-scrub_items items
call_ids-scrub_items (cons (boolean b) items) = call_ids-scrub_items items
call_ids-scrub_items (cons (number n) items) = call_ids-scrub_items items
call_ids-scrub_items (cons (text s) items) = call_ids-scrub_items items
call_ids-scrub_items (cons (array more) items) = call_ids-scrub_items items

outputs-scrub_items :
    (items : Items)
    → collect_responses_function_call_output_ids (scrub_items items)
      ≡ collect_responses_function_call_output_ids items
unfolding collect_responses_function_call_output_ids
outputs-scrub_items items = ap unique_trimmed (call_ids-scrub_items items)

answer_iff :
    (entry : Recorded) (current : Items) (payload : Fields) (v : Option MessagesRewriteError)
    → (answer entry current payload v ≡ inr (rebuilt entry current payload)) ↔ (v ≡ none)
answer_iff entry current payload none = ((λ h. refl), (λ h. refl))
answer_iff entry current payload (some e) =
    ((λ h. absurd (ground arith)), (λ h. absurd (ground arith)))

validated_iff :
    (entry : Recorded) (current : Items)
    → is_empty (collect_responses_function_call_ids entry.replay_items) ≡ false
    → (validate_responses_continuation_tool_outputs entry current ≡ none) ↔ (
        (id : String)
        → member id (collect_responses_function_call_output_ids current)
          ≡ member id (collect_responses_function_call_ids entry.replay_items))
unfolding validate_responses_continuation_tool_outputs collect_responses_function_call_ids
    collect_responses_function_call_output_ids
validated_iff entry current h =
    let provided = collect_responses_function_call_output_ids current in
    let pending = collect_responses_function_call_ids entry.replay_items in
    let same =
      compare_ids_iff provided pending (λ x. member-unique_trimmed x _)
        (λ x. member-unique_trimmed x _) in
    let compared =
      ap
        (λ b. if◌then◌else◌ {A = Option MessagesRewriteError} b none (compare_ids provided pending))
        h in
    ((λ v. same.0 (sym compared ∙ v)), (λ ids. compared ∙ same.1 ids))

rewrite_reaches :
    (load : String → Option Recorded) (payload : Fields) (entry : Recorded) (items : Items)
    → (trim (text_field "previous_response_id" payload) == "") ≡ false
    → load (trim (text_field "previous_response_id" payload)) ≡ some entry
    → no_items entry.replay_items ≡ false
    → normalize_responses_input (field_of "input" payload) ≡ some items
    → rewrite_previous_response_continuation_with_mode load payload
      ≡ answer entry
          (scrub_items items)
          payload
          (validate_responses_continuation_tool_outputs entry (scrub_items items))
unfolding rewrite_previous_response_continuation_with_mode normalize_responses_continuation_input
rewrite_reaches load payload entry items named found some_items e =
    let previous = trim (text_field "previous_response_id" payload) in
    ap
      (λ b.
        if◌then◌else◌ {A = ResponsesRewriteError ⊎ Fields} b (inr payload)
          (with_entry previous payload (load previous)))
      named
    ∙ ap (with_entry previous payload) found
    ∙ ap
        (λ b. if◌then◌else◌ {A = ResponsesRewriteError ⊎ Fields} b (inl (not_replayable previous)) (
          with_input entry payload
            (scrub_some (normalize_responses_input (field_of "input" payload)))))
        some_items
    ∙ ap (λ i. with_input entry payload (scrub_some i)) e

-- A continuation of a response that waits for outputs of calls, found and with an input that can
-- be read, is rewritten exactly if the identifiers of the outputs in its input, before it is
-- scrubbed, are those of the calls of the response. The rewritten request then repeats the
-- response's input and items, goes on with the scrubbed input and names no earlier response.
pub rewrite_previous_response_continuation_iff :
    (load : String → Option Recorded) (payload : Fields) (entry : Recorded) (items : Items)
    → (trim (text_field "previous_response_id" payload) == "") ≡ false
    → load (trim (text_field "previous_response_id" payload)) ≡ some entry
    → no_items entry.replay_items ≡ false
    → is_empty (collect_responses_function_call_ids entry.replay_items) ≡ false
    → normalize_responses_input (field_of "input" payload) ≡ some items
    → (rewrite_previous_response_continuation_with_mode load payload
        ≡ inr (rebuilt entry (scrub_items items) payload))
      ↔ ((id : String)
          → member id (collect_responses_function_call_output_ids items)
            ≡ member id (collect_responses_function_call_ids entry.replay_items))
unfolding rewrite_previous_response_continuation_with_mode normalize_responses_continuation_input
rewrite_previous_response_continuation_iff load payload entry items named found some_items waits e =
    let reached = rewrite_reaches load payload entry items named found some_items e in
    let answers =
      answer_iff entry (scrub_items items) payload
        (validate_responses_continuation_tool_outputs entry (scrub_items items)) in
    let valid = validated_iff entry (scrub_items items) waits in
    let outputs = outputs-scrub_items items in
    (
      (λ h id. sym (ap (member id) outputs) ∙ valid.0 (answers.0 (sym reached ∙ h)) id),
      (λ h. reached ∙ answers.1 (valid.1 (λ id. ap (member id) outputs ∙ h id))),
    )
