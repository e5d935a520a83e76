-- ===== src/Instance/Continuation/Degrade.antt =====
-- instance/responses_replay.go: DegradeOrphanContinuationPayload, which makes plain messages of the
-- tool items that a backend would not know. `sprint` and `decimal` are what fmt prints of a
-- field, which may be missing, and of a number.
use copilot_pool_gateway.Base.{
  ℕ, ◌-◌, suc, String, Bool, false, not, ◌||◌, ◌&&◌, Option, none, some, ◌==◌, if◌then◌else◌, ltb,
  eqb, trim, to_lower, append_text,
}
use copilot_pool_gateway.Base.Json.{
  Json, null, text, array, object, Items, nil, cons, Fields, end, field, field_of, set_field,
  delete_field,
}
use copilot_pool_gateway.Instance.Continuation.{normalize_responses_input, scrub_items}

abbrev pub orphan_degrade_max_tool_items : ℕ
orphan_degrade_max_tool_items = 100

-- What the loop has behind it: the tool items dropped, whether the marker is out, and the items
-- that count as changed.
pub record Progress : Type 0 where
  pub tools_dropped : ℕ
  pub marker_emitted : Bool
  pub changed : ℕ

abbrev one_item : Json → Json
one_item item = array (cons item nil)

abbrev pub user_message : String → Json
user_message s = object (
    field "type" (text "message") (
      field "role" (text "user") (
        field "content"
          (one_item (object (field "type" (text "input_text") (field "text" (text s) end)))) end)))

abbrev pub assistant_message : String → Json
assistant_message s = object (
    field "type" (text "message") (
      field "role" (text "assistant") (
        field "status" (text "completed") (
          field "content"
            (one_item (
              object (
                field "type" (text "output_text") (
                  field "text" (text s)
                    (field "annotations" (array nil) (field "logprobs" (array nil) end))))))
            end))))

module _ (sprint : Option Json → String) (decimal : ℕ → String) where
  abbrev pub printed : String → Fields → String
  printed k fs = trim (sprint (field_of k fs))

  abbrev pub item_type : Fields → String
  item_type fs = trim (to_lower (sprint (field_of "type" fs)))

  abbrev pub is_tool : String → Bool
  is_tool kind = kind == "function_call" || kind == "function_call_output"

  -- The count of the first pass.
  unfoldable pub count_tools : Items → ℕ
  count_tools nil = 0
  count_tools (cons (object fs) items) =
      let rest = count_tools items in if is_tool (item_type fs) then suc rest else rest
  count_tools (cons _ items) = count_tools items

  unfoldable pub call_message : Fields → Json
  call_message fs =
      let name = if printed "name" fs == "" then "tool" else printed "name" fs in
      assistant_message (
        append_text "[Previous tool call: "
          (append_text name (append_text "] arguments:\n" (printed "arguments" fs))))

  unfoldable pub output_message : Fields → Json
  output_message fs =
      let label =
        if printed "call_id" fs == ""
        then "previous tool"
        else append_text "previous tool (call_id=" (append_text (printed "call_id" fs) ")") in
      user_message
        (append_text "[Output from " (append_text label (append_text "]\n" (printed "output" fs))))

  unfoldable pub marker_message : ℕ → Json
  marker_message drop_tool = user_message (
      append_text "["
        (append_text (decimal drop_tool) " earlier tool calls and outputs omitted to fit context]"))

  -- The item itself, or the message that takes its place.
  unfoldable pub degraded_item : Fields → Json
  unfolding call_message output_message
  degraded_item fs =
      if item_type fs == "function_call"
      then call_message fs
      else if item_type fs == "function_call_output"
      then output_message fs
      else object fs

  abbrev pub with_marker : ℕ → Bool → Bool → Items → Items
  with_marker drop_tool tool emitted items =
      if tool && (ltb 0 drop_tool && not emitted)
      then cons (marker_message drop_tool) items
      else items

  abbrev pub after_kept : ℕ → Bool → Progress → Progress
  after_kept drop_tool tool p = record p {
    marker_emitted = p.marker_emitted || tool && ltb 0 drop_tool;
    changed = if tool then suc p.changed else p.changed;
  }

  -- The loop over the items.
  unfoldable pub degrade_items : ℕ → Progress → Items → Items × ℕ
  unfolding degraded_item marker_message
  degrade_items drop_tool p nil = (nil, p.changed)
  degrade_items drop_tool p (cons (object fs) items) =
      let tool = is_tool (item_type fs) in
      let reasoning = degrade_items drop_tool (record p { changed = suc p.changed }) items in
      let dropped =
        degrade_items drop_tool (record p { tools_dropped = suc p.tools_dropped }) items in
      let rest = degrade_items drop_tool (after_kept drop_tool tool p) items in
      if item_type fs == "reasoning"
      then reasoning
      else if tool && ltb p.tools_dropped drop_tool
      then dropped
      else (with_marker drop_tool tool p.marker_emitted (cons (degraded_item fs) rest.0), rest.1)
  degrade_items drop_tool p (cons item items) =
      let rest = degrade_items drop_tool p items in (cons item rest.0, rest.1)

  -- A nil slice is written as null.
  abbrev pub input_of : Items → Json
  input_of nil = null
  input_of (cons item items) = array (cons item items)

  abbrev pub replaced : ℕ → Items × ℕ → Fields → Fields × ℕ
  replaced drop_tool (rewritten, changed) fs =
      if eqb changed 0 && eqb drop_tool 0 then (fs, 0) else (
        delete_field "previous_response_id"
            (set_field "input" (input_of (scrub_items rewritten)) fs),
        changed,
      )

  unfoldable pub degrade_payload : Items → Fields → Fields × ℕ
  unfolding degrade_items count_tools
  degrade_payload nil fs = (fs, 0)
  degrade_payload (cons item more) fs =
      let items = cons item more in
      let drop_tool = count_tools items - orphan_degrade_max_tool_items in
      replaced drop_tool
        (degrade_items drop_tool (record { tools_dropped = 0; marker_emitted = false; changed = 0 })
          items)
        fs

  abbrev pub degrade_normalized : Fields → Option Items → Option (Fields × ℕ)
  degrade_normalized fs none = none
  degrade_normalized fs (some items) = some (degrade_payload items fs)

  -- DegradeOrphanContinuationPayload, on a body that parses; `none` is the error.
  unfoldable pub degrade_orphan_continuation_payload : Fields → Option (Fields × ℕ)
  unfolding degrade_payload
  degrade_orphan_continuation_payload fs =
      degrade_normalized fs (normalize_responses_input (field_of "input" fs))
