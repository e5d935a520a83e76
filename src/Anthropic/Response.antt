-- ===== src/Anthropic/Response.antt =====
-- anthropic/translate_response.go: a whole response. `parse_json` is what parseJSONSafe makes of a
-- call's arguments, in whatever type holds JSON values; an empty text stays without a value.
use Prim.Native.String.{◌++◌ as ◌⧺◌}
use copilot_pool_gateway.Base.{
  ℕ, String, List, [], ◌∷◌, ◌++◌, Option, none, some, ◌==◌, if◌then◌else◌, decimal,
}
use copilot_pool_gateway.Anthropic.Types.{
  ToolCall, ChoiceMsg, Choice, OpenAiUsage, ChatCompletionResponse, AnthropicUsage, usage_of,
  map_openai_stop_reason,
}

pub data ContentBlock (J : Type 0) : Type 0 where
  text : String → ContentBlock J
  tool_use : String → String → Option J → ContentBlock J

pub record AnthropicResponse (J : Type 0) : Type 0 where
  pub id : String
  pub content : List (ContentBlock J)
  pub model : String
  pub stop_reason : String
  pub usage : AnthropicUsage

module _ {J : Type 0} (parse_json : String → J) where
  calls_of : List ToolCall → List (ContentBlock J)
  calls_of [] = []
  calls_of (tc ∷ rest) =
      tool_use tc.id tc.name (if tc.arguments == "" then none else some (parse_json tc.arguments))
      ∷ calls_of rest

  abbrev blocks_of : ChoiceMsg → List (ContentBlock J)
  blocks_of m = (if m.content == "" then [] else text m.content ∷ []) ++ calls_of m.tool_calls

  -- The loop over the choices.
  unfoldable pub content_of : List Choice → List (ContentBlock J)
  unfolding calls_of
  content_of [] = []
  content_of (c ∷ rest) = elim c.message [
    | none ↦ content_of rest
    | some m ↦ blocks_of m ++ content_of rest
  ]

  abbrev or_empty_text : List (ContentBlock J) → List (ContentBlock J)
  or_empty_text [] = text "" ∷ []
  or_empty_text (b ∷ rest) = b ∷ rest

abbrev reason_or : Option String → String → String
reason_or none old = old
reason_or (some reason) old = map_openai_stop_reason reason

-- The last finish reason among the choices with a message.
unfoldable pub stop_reason_of : String → List Choice → String
unfolding map_openai_stop_reason
stop_reason_of reason [] = reason
stop_reason_of reason (c ∷ rest) =
    stop_reason_of (elim c.message [ none ↦ reason | some m ↦ reason_or c.finish_reason reason ])
      rest

abbrev usage_or_none : Option OpenAiUsage → AnthropicUsage
usage_or_none none = record { input_tokens = 0; output_tokens = 0; cache_read_input_tokens = 0 }
usage_or_none (some u) = usage_of u

-- TranslateToAnthropic
unfoldable pub translate_to_anthropic :
    {J : Type 0} → (String → J) → ℕ → ChatCompletionResponse → AnthropicResponse J
unfolding content_of stop_reason_of
translate_to_anthropic parse_json now resp = record {
  id = if resp.id == "" then "msg_" ⧺ decimal now else resp.id;
  content = or_empty_text parse_json (content_of parse_json resp.choices);
  model = resp.model;
  stop_reason = stop_reason_of "end_turn" resp.choices;
  usage = usage_or_none resp.usage;
}
