-- ===== src/Instance/Continuation/Capture.antt =====
-- instance/responses_replay.go: what is kept of an answer, from its body or from its stream, so that
-- it can be continued. `unmarshal` is json.Unmarshal into a map; a field's name is taken as it is
-- spelled. The result is the identifier and the items that storeResponsesReplay is given.
use copilot_pool_gateway.Base.{
  String, ◌≡◌, refl, Bool, true, false, ◌&&◌, ◌||◌, List, [], ◌∷◌, Option, none, some, ◌==◌,
  if◌then◌else◌, trim, has_prefix, trim_prefix, arith,
}
use copilot_pool_gateway.Base.Json.{
  Json, null, boolean, number, text, array, object, Items, nil, cons, Fields, field_of, text_field,
}
use copilot_pool_gateway.Instance.Continuation.{
  normalize_responses_input, is_replayable_response_item, extract_replay_items,
}
use copilot_pool_gateway.Instance.Continuation.Rewrite.{Recorded, append_items, no_items}

-- responsesStreamCapture
pub record StreamCapture : Type 0 where
  pub response_id : String
  pub replay_items : Items

abbrev pub id_of_response : Option Json → String
id_of_response (some (object response)) = trim (text_field "id" response)
id_of_response _ = ""

-- extractResponseID
unfoldable pub extract_response_id : Fields → String
extract_response_id payload =
    if trim (text_field "response_id" payload) == ""
    then if trim (text_field "id" payload) == ""
      then id_of_response (field_of "response" payload)
      else text_field "id" payload
    else text_field "response_id" payload

abbrev pub items_of : Option Json → Items
items_of (some (array output)) = extract_replay_items output
items_of _ = nil

abbrev pub items_of_response : Option Json → Items
items_of_response (some (object response)) = items_of (field_of "output" response)
items_of_response _ = nil

-- extractStreamResponseReplayItems
unfoldable pub extract_stream_response_replay_items : Fields → Items
unfolding extract_replay_items
extract_stream_response_replay_items payload = items_of_response (field_of "response" payload)

-- extractStreamOutputItem; any other value is not kept.
unfoldable pub extract_stream_output_item : Fields → Json
extract_stream_output_item payload = item_of (field_of "item" payload)
  where
    item_of : Option Json → Json
    item_of (some (object item)) = object item
    item_of _ = null

abbrev pub absorb_items : Items → Json → Items → Items
absorb_items (cons item more) output items = cons item more
absorb_items nil output items =
    if is_replayable_response_item output then append_items items (cons output nil) else items

-- absorbLine, from the payload on
unfoldable pub absorb_payload : Fields → StreamCapture → StreamCapture
unfolding extract_response_id extract_stream_response_replay_items extract_stream_output_item
    append_items is_replayable_response_item
absorb_payload payload capture = record {
  response_id =
      if trim (extract_response_id payload) == ""
      then capture.response_id
      else extract_response_id payload;
  replay_items =
      absorb_items (extract_stream_response_replay_items payload)
        (extract_stream_output_item payload) capture.replay_items;
}

module _ (unmarshal : String → Option Fields) where
  abbrev absorb_parsed : Option Fields → StreamCapture → StreamCapture
  absorb_parsed none capture = capture
  absorb_parsed (some payload) capture = absorb_payload payload capture

  -- absorbLine
  unfoldable pub absorb_line : String → StreamCapture → StreamCapture
  unfolding absorb_payload
  absorb_line line capture =
      let written = trim (trim_prefix "data:" (trim line)) in
      let absorbed = absorb_parsed (unmarshal written) capture in
      if has_prefix "data:" (trim line)
      then if written == "" || written == "[DONE]" then capture else absorbed
      else capture

  unfoldable pub absorb_lines : List String → StreamCapture → StreamCapture
  unfolding absorb_line
  absorb_lines [] capture = capture
  absorb_lines (line ∷ lines) capture = absorb_lines lines (absorb_line line capture)

abbrev pub kept_if : String → Items → Option Items → Option (String × Recorded)
kept_if response_id replay_items none = none
kept_if response_id replay_items (some input) =
    if no_items input || (no_items replay_items || trim response_id == "")
    then none
    else some (response_id, record { input = input; replay_items = replay_items })

-- storeResponsesReplayFromStream, for a request that parses
unfoldable pub store_responses_replay_from_stream :
    Fields → StreamCapture → Option (String × Recorded)
unfolding normalize_responses_input
store_responses_replay_from_stream request capture =
    kept_if capture.response_id capture.replay_items
      (normalize_responses_input (field_of "input" request))

unfoldable pub are_replayable : Items → Bool
unfolding is_replayable_response_item
are_replayable nil = true
are_replayable (cons item items) = is_replayable_response_item item && are_replayable items

are_replayable-extract_replay_items :
    (items : Items) → are_replayable (extract_replay_items items) ≡ true
unfolding are_replayable extract_replay_items
are_replayable-extract_replay_items nil = refl
are_replayable-extract_replay_items (cons item items) =
    ground (arith, are_replayable-extract_replay_items items)

are_replayable-append_items :
    (items : Items) (item : Json)
    → are_replayable items ≡ true
    → is_replayable_response_item item ≡ true
    → are_replayable (append_items items (cons item nil)) ≡ true
unfolding are_replayable append_items
are_replayable-append_items nil item g h = rw h refl
are_replayable-append_items (cons first items) item g h =
    ground (arith, are_replayable-append_items items item (ground arith) h)

are_replayable-absorb_items :
    (whole : Items) (output : Json) (items : Items)
    → are_replayable whole ≡ true
    → are_replayable items ≡ true
    → are_replayable (absorb_items whole output items) ≡ true
are_replayable-absorb_items (cons item more) output items g h = g
are_replayable-absorb_items nil output items g h =
    appended (is_replayable_response_item output) refl
  where
    appended :
        (b : Bool)
        → is_replayable_response_item output ≡ b
        → are_replayable (if b then append_items items (cons output nil) else items) ≡ true
    appended true e = are_replayable-append_items items output h e
    appended false e = h

are_replayable-items_of : (output : Option Json) → are_replayable (items_of output) ≡ true
unfolding are_replayable
are_replayable-items_of none = refl
are_replayable-items_of (some null) = refl
are_replayable-items_of (some (boolean b)) = refl
are_replayable-items_of (some (number n)) = refl
are_replayable-items_of (some (text s)) = refl
are_replayable-items_of (some (array output)) = are_replayable-extract_replay_items output
are_replayable-items_of (some (object fs)) = refl

are_replayable-items_of_response :
    (response : Option Json) → are_replayable (items_of_response response) ≡ true
unfolding are_replayable
are_replayable-items_of_response none = refl
are_replayable-items_of_response (some null) = refl
are_replayable-items_of_response (some (boolean b)) = refl
are_replayable-items_of_response (some (number n)) = refl
are_replayable-items_of_response (some (text s)) = refl
are_replayable-items_of_response (some (array output)) = refl
are_replayable-items_of_response (some (object response)) =
    are_replayable-items_of (field_of "output" response)

are_replayable-absorb_payload :
    (payload : Fields) (capture : StreamCapture)
    → are_replayable capture.replay_items ≡ true
    → are_replayable (absorb_payload payload capture).replay_items ≡ true
unfolding absorb_payload extract_stream_response_replay_items
are_replayable-absorb_payload payload capture h =
    are_replayable-absorb_items (items_of_response (field_of "response" payload))
      (extract_stream_output_item payload) capture.replay_items
      (are_replayable-items_of_response (field_of "response" payload)) h

module _ (unmarshal : String → Option Fields) where
  are_replayable-absorb_parsed :
      (payload : Option Fields) (capture : StreamCapture)
      → are_replayable capture.replay_items ≡ true
      → are_replayable (absorb_parsed unmarshal payload capture).replay_items ≡ true
  are_replayable-absorb_parsed none capture h = h
  are_replayable-absorb_parsed (some payload) capture h =
      are_replayable-absorb_payload payload capture h

  are_replayable-if :
      (b : Bool) (x y : StreamCapture)
      → are_replayable x.replay_items ≡ true
      → are_replayable y.replay_items ≡ true
      → are_replayable (if b then x else y).replay_items ≡ true
  are_replayable-if true x y g h = g
  are_replayable-if false x y g h = h

  -- Whatever lines a stream has, and however they parse, the items that are captured stay reasoning
  -- or calls, which can be replayed.
  are_replayable-absorb_lines :
      (lines : List String) (capture : StreamCapture)
      → are_replayable capture.replay_items ≡ true
      → are_replayable (absorb_lines unmarshal lines capture).replay_items ≡ true
  unfolding absorb_lines absorb_line
  are_replayable-absorb_lines [] capture h = h
  are_replayable-absorb_lines (line ∷ lines) capture h =
      are_replayable-absorb_lines lines (absorb_line unmarshal line capture) (
        are_replayable-if (has_prefix "data:" (trim line)) _ _
          (are_replayable-if _ _ _ h (are_replayable-absorb_parsed (unmarshal _) capture h)) h)
