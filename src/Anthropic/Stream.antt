-- ===== src/Anthropic/Stream.antt =====
-- anthropic/stream_translation.go: each chunk of the upstream's stream becomes a list of events.
-- `now` is the clock, which names a message without an ID.
pub mod Ordered
pub mod Protocol
pub mod Content
use Prim.Native.String.{◌++◌ as ◌⧺◌}
use copilot_pool_gateway.Base.{
  ℕ, ◌+◌, ℤ, pos, eqb_ℤ, String, Bool, true, false, not, ◌||◌, List, [], ◌∷◌, ◌++◌, Option, none,
  some, ◌==◌, if◌then◌else◌, decimal,
}
use copilot_pool_gateway.Anthropic.Types.{
  ToolCall, ChoiceMsg, Choice, OpenAiUsage, ChatCompletionResponse, AnthropicUsage, usage_of,
  map_openai_stop_reason,
}

pub record ToolCallState : Type 0 where
  pub id : String
  pub name : String
  pub arguments : String

-- AnthropicStreamState; the three token counts are one record.
pub record StreamState : Type 0 where
  pub message_start_sent : Bool
  pub content_block_index : ℕ
  pub content_block_open : Bool
  pub tool_calls : List (ℤ × ToolCallState)
  pub usage : AnthropicUsage
  pub model : String
  pub id : String

-- AnthropicContentBlock, as a block starts: empty.
pub data Block : Type 0 where
  text : Block
  tool_use : String → String → Block

-- StreamEvent, with the data of each kind
pub data StreamEvent : Type 0 where
  message_start : String → String → AnthropicUsage → StreamEvent
  ping : StreamEvent
  content_block_start : ℕ → Block → StreamEvent
  text_delta : ℕ → String → StreamEvent
  input_json_delta : ℕ → String → StreamEvent
  content_block_stop : ℕ → StreamEvent
  message_delta : String → AnthropicUsage → StreamEvent

abbrev pub Output : Type 0
Output = List StreamEvent × StreamState

-- The events of one step, and those of the next.
infixl 10 ◌>>>◌
abbrev pub ◌>>>◌ : Output → (StreamState → Output) → Output
◌>>>◌ (events, s) f = let (more, s') = f s in (events ++ more, s')

abbrev pub emit : StreamEvent → StreamState → Output
emit e s = (e ∷ [], s)

-- closeContentBlock
unfoldable pub close_content_block : StreamState → Output
close_content_block s =
    if s.content_block_open
    then (
      content_block_stop s.content_block_index ∷ [],
      record s { content_block_open = false; content_block_index = s.content_block_index + 1 },
    )
    else ([], s)

abbrev open_block : Block → StreamState → Output
open_block b s =
    (content_block_start s.content_block_index b ∷ [], record s { content_block_open = true })

abbrev has_calls : List (ℤ × ToolCallState) → Bool
has_calls [] = false
has_calls (c ∷ rest) = true

abbrev text_event : String → StreamState → Output
text_event content s = emit (text_delta s.content_block_index content) s

abbrev text_block : String → StreamState → Output
text_block content s = open_block text s >>> text_event content

-- The text content of a delta.
unfoldable pub translate_text : String → StreamState → Output
unfolding close_content_block
translate_text content s =
    if content == ""
    then ([], s)
    else if not s.content_block_open || has_calls s.tool_calls
    then close_content_block s >>> text_block content
    else text_event content s

-- `state.ToolCalls[idx] = …`
put_call : List (ℤ × ToolCallState) → ℤ → ToolCallState → List (ℤ × ToolCallState)
put_call [] i c = (i, c) ∷ []
put_call ((j, d) ∷ rest) i c =
    let more = put_call rest i c in if eqb_ℤ j i then (j, c) ∷ rest else (j, d) ∷ more

-- `tcs.Arguments += …`, where the call is there
add_arguments : List (ℤ × ToolCallState) → ℤ → String → List (ℤ × ToolCallState)
add_arguments [] i more = []
add_arguments ((j, d) ∷ rest) i more =
    let others = add_arguments rest i more in
    if eqb_ℤ j i then (j, record d { arguments = d.arguments ⧺ more }) ∷ rest else (j, d) ∷ others

abbrev index_of : Option ℤ → ℤ
index_of none = pos 0
index_of (some i) = i

abbrev with_call : ToolCall → StreamState → StreamState
with_call tc s = record s {
  tool_calls =
      put_call s.tool_calls (index_of tc.index)
        (record { id = tc.id; name = tc.name; arguments = "" });
}

-- A fragment with an ID starts a call.
unfoldable pub start_call : ToolCall → StreamState → Output
unfolding close_content_block put_call
start_call tc s =
    if tc.id == ""
    then ([], s)
    else close_content_block s >>> λ s'. open_block (tool_use tc.id tc.name) (with_call tc s')

unfoldable pub translate_arguments : ToolCall → StreamState → Output
unfolding add_arguments
translate_arguments tc s =
    if tc.arguments == ""
    then ([], s)
    else emit (input_json_delta s.content_block_index tc.arguments)
        (record s { tool_calls = add_arguments s.tool_calls (index_of tc.index) tc.arguments })

unfoldable pub translate_calls : List ToolCall → StreamState → Output
unfolding start_call translate_arguments
translate_calls [] s = ([], s)
translate_calls (tc ∷ rest) s = start_call tc s >>> translate_arguments tc >>> translate_calls rest

abbrev message_end : String → StreamState → Output
message_end reason s = emit (message_delta (map_openai_stop_reason reason) s.usage) s

unfoldable pub translate_finish : Option String → StreamState → Output
unfolding close_content_block
translate_finish none s = ([], s)
translate_finish (some reason) s = close_content_block s >>> message_end reason

abbrev translate_delta : Option ChoiceMsg → StreamState → Output
translate_delta none s = ([], s)
translate_delta (some d) s = translate_text d.content s >>> translate_calls d.tool_calls

-- The body of the loop over the choices.
unfoldable pub translate_choice : Choice → StreamState → Output
unfolding translate_text translate_calls translate_finish
translate_choice choice s = translate_delta choice.delta s >>> translate_finish choice.finish_reason

unfoldable pub translate_choices : List Choice → StreamState → Output
unfolding translate_choice
translate_choices [] s = ([], s)
translate_choices (c ∷ rest) s = translate_choice c s >>> translate_choices rest

abbrev or_old : String → String → String
or_old new old = if new == "" then old else new

abbrev usage_or_old : Option OpenAiUsage → AnthropicUsage → AnthropicUsage
usage_or_old none old = old
usage_or_old (some u) old = usage_of u

-- The model, the ID and the usage of the chunk.
abbrev pub absorb : ChatCompletionResponse → StreamState → StreamState
absorb chunk s = record s {
  model = or_old chunk.model s.model;
  id = or_old chunk.id s.id;
  usage = usage_or_old chunk.usage s.usage;
}

abbrev message_id : ℕ → String → String
message_id now id = if id == "" then "msg_" ⧺ decimal now else id

-- message_start and ping, before the first chunk's content
unfoldable pub start_message : ℕ → StreamState → Output
start_message now s = if s.message_start_sent then ([], s) else (
  message_start (message_id now s.id) s.model (record (s.usage) { output_tokens = 0 }) ∷ ping ∷ [],
  record s { message_start_sent = true },
)

-- TranslateChunkToAnthropicEvents
unfoldable pub translate_chunk : ℕ → ChatCompletionResponse → StreamState → Output
unfolding start_message translate_choices
translate_chunk now chunk s = start_message now (absorb chunk s) >>> translate_choices chunk.choices

abbrev pub new_stream : StreamState
new_stream = record {
  message_start_sent = false;
  content_block_index = 0;
  content_block_open = false;
  tool_calls = [];
  usage = record { input_tokens = 0; output_tokens = 0; cache_read_input_tokens = 0 };
  model = "";
  id = "";
}

-- A stream: each chunk with its time.
unfoldable pub translate_stream : List (ℕ × ChatCompletionResponse) → StreamState → Output
unfolding translate_chunk
translate_stream [] s = ([], s)
translate_stream ((now, chunk) ∷ rest) s = translate_chunk now chunk s >>> translate_stream rest
