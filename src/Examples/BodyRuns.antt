-- ===== src/Examples/BodyRuns.antt =====
-- Runs of what is read off request bodies.
use copilot_pool_gateway.Base.{append_text}
use copilot_pool_gateway.Handler.CallIds.{collect_items}
use copilot_pool_gateway.Base.{List, [], ◌∷◌, has_prefix, length_bytes, lower_char}
use copilot_pool_gateway.Base.{
  ℕ, String, ◌≡◌, refl, map, true, false, Option, some, ◌==◌, ◌↔◌, inr, trim, to_lower, is_space,
}
use copilot_pool_gateway.Base.Json.{
  Json, text, array, object, Items, nil, cons, Fields, end, field, field_of, text_field,
}
use copilot_pool_gateway.Instance.Turns.{unique_trimmed}
use copilot_pool_gateway.Instance.Turns.Session.{member}
use copilot_pool_gateway.Instance.ToolValidation.{is_empty}
use copilot_pool_gateway.Instance.Continuation.{
  normalize_responses_input, scrub_items, collect_responses_function_call_ids,
  collect_responses_function_call_output_ids,
}
use copilot_pool_gateway.Instance.Continuation.Degrade.{
  degrade_payload, degrade_orphan_continuation_payload,
}
use copilot_pool_gateway.Instance.Continuation.Degraded.{
  is_plain_body, degrade_orphan_continuation_payload-plain,
}
use copilot_pool_gateway.Instance.Continuation.Rewrite.{
  Recorded, rebuilt, rewrite_previous_response_continuation_with_mode,
}
use copilot_pool_gateway.Instance.Continuation.Answered.{rewrite_previous_response_continuation_iff}
use copilot_pool_gateway.Handler.CallIds.{
  output_ids, extract_response_function_call_output_ids, rewrite_function_call_output_call_ids,
}
use copilot_pool_gateway.Handler.CallIds.Sent.{
  SentId, untouched, mangled, sent, minted, are_sent, extract-rewrite_sent,
}

abbrev call_output : String → Json
call_output id = object (field "type" (text "function_call_output") (field "call_id" (text id) end))

abbrev body : Json
body = object (
    field "model" (text "gpt-5") (
      field "input"
        (array (
          cons (call_output "callABCDEFGHIJKLMNOPQRSTUVWX0123456789ab")
            (cons (call_output " call_1 ") (cons (call_output "call_1") nil))))
        end))

abbrev sent_ids : List SentId
sent_ids =
    mangled "ABCDEFGHIJKLMNOPQRSTUVWX" "0123456789ab" ∷ untouched "call_1" ∷ untouched "call_1" ∷ []

sent_ids_sent : are_sent sent_ids ≡ true
unfolding are_sent has_prefix length_bytes
sent_ids_sent = refl

body_sent : map trim (output_ids body) ≡ map sent sent_ids
unfolding sent field_of trim to_lower lower_char is_space collect_items append_text
body_sent = refl

extract-rewrite_sent_example :
    extract_response_function_call_output_ids (rewrite_function_call_output_call_ids body)
    ≡ unique_trimmed (map minted sent_ids)
extract-rewrite_sent_example = extract-rewrite_sent body sent_ids sent_ids_sent body_sent

abbrev printed : Option Json → String
printed (some (text s)) = s
printed _ = "<nil>"

abbrev call : String → Json
call id = object (
    field "type" (text "function_call")
      (field "call_id" (text id) (field "name" (text "ls") (field "arguments" (text "{}") end))))

abbrev orphan_items : Items
orphan_items =
    cons (object (field "type" (text "reasoning") (field "id" (text "rs_1") end)))
      (cons (call "call_1") (cons (call_output "call_1") (cons (text "go on") nil)))

abbrev orphan : Fields
orphan = field "previous_response_id" (text "resp_1") (field "input" (array orphan_items) end)

abbrev degraded : Fields × ℕ
degraded = degrade_payload printed (λ _. "0") orphan_items orphan

orphan_degraded :
    degrade_orphan_continuation_payload printed (λ _. "0") orphan ≡ some (degraded.0, degraded.1)
unfolding degrade_orphan_continuation_payload normalize_responses_input field_of
orphan_degraded = refl

degrade_orphan_continuation_payload-plain_example :
    is_plain_body printed (λ _. "0") degraded.0 ≡ true
degrade_orphan_continuation_payload-plain_example =
    degrade_orphan_continuation_payload-plain printed (λ _. "0") (λ s. refl) orphan degraded.0
      degraded.1 orphan_degraded

abbrev recorded : Recorded
recorded = record {
  input = cons (text "list the files") nil;
  replay_items = cons (call "call_1") nil;
}

abbrev continuation_items : Items
continuation_items = cons (call_output "call_1") nil

abbrev continuation : Fields
continuation =
    field "previous_response_id" (text "resp_1") (field "input" (array continuation_items) end)

continuation_named : (trim (text_field "previous_response_id" continuation) == "") ≡ false
unfolding trim is_space field_of
continuation_named = refl

recorded_waits : is_empty (collect_responses_function_call_ids recorded.replay_items) ≡ false
unfolding collect_responses_function_call_ids trim to_lower is_space field_of unique_trimmed
    lower_char
recorded_waits = refl

continuation_input :
    normalize_responses_input (field_of "input" continuation) ≡ some continuation_items
unfolding normalize_responses_input field_of
continuation_input = refl

rewrite_previous_response_continuation_iff_example :
    (rewrite_previous_response_continuation_with_mode (λ _. some recorded) continuation
      ≡ inr (rebuilt recorded (scrub_items continuation_items) continuation))
    ↔ ((id : String)
        → member id (collect_responses_function_call_output_ids continuation_items)
          ≡ member id (collect_responses_function_call_ids recorded.replay_items))
rewrite_previous_response_continuation_iff_example =
    rewrite_previous_response_continuation_iff (λ _. some recorded) continuation recorded
      continuation_items continuation_named refl refl recorded_waits continuation_input
