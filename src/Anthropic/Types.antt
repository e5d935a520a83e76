-- ===== src/Anthropic/Types.antt =====
-- anthropic/types.go and anthropic/utils.go, as far as responses are translated. Token counts are
-- not negative; `maxInt(a - b, 0)` is the subtraction of natural numbers.
use copilot_pool_gateway.Base.{ℕ, ◌-◌, ℤ, String, List, Option, none, some, ◌==◌, if◌then◌else◌}

-- ToolCall and FunctionCall
pub record ToolCall : Type 0 where
  pub id : String
  pub index : Option ℤ
  pub name : String
  pub arguments : String

pub record ChoiceMsg : Type 0 where
  pub content : String
  pub tool_calls : List ToolCall

pub record Choice : Type 0 where
  pub message : Option ChoiceMsg
  pub delta : Option ChoiceMsg
  pub finish_reason : Option String

-- OpenAIUsage, with the cached tokens of PromptTokensDetails
pub record OpenAiUsage : Type 0 where
  pub prompt_tokens : ℕ
  pub completion_tokens : ℕ
  pub cached_tokens : Option ℕ

pub record ChatCompletionResponse : Type 0 where
  pub id : String
  pub model : String
  pub choices : List Choice
  pub usage : Option OpenAiUsage

-- AnthropicUsage and DeltaUsage
pub record AnthropicUsage : Type 0 where
  pub input_tokens : ℕ
  pub output_tokens : ℕ
  pub cache_read_input_tokens : ℕ

abbrev pub or_zero : Option ℕ → ℕ
or_zero none = 0
or_zero (some n) = n

-- The counts that both translations make of the upstream's usage.
abbrev pub usage_of : OpenAiUsage → AnthropicUsage
usage_of u = record {
  input_tokens = u.prompt_tokens - or_zero u.cached_tokens;
  output_tokens = u.completion_tokens;
  cache_read_input_tokens = or_zero u.cached_tokens;
}

-- MapOpenAIStopReasonToAnthropic
unfoldable pub map_openai_stop_reason : String → String
map_openai_stop_reason reason =
    if reason == "length"
    then "max_tokens"
    else if reason == "tool_calls"
    then "tool_use"
    else "end_turn"
