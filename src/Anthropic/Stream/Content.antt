-- ===== src/Anthropic/Stream/Content.antt =====
-- What the events carry, read off the upstream's chunks directly. A client keeps which call each
-- block is of, and the upstream's reader which call was started last at each index.
pub mod Attributed
pub mod Streams
use copilot_pool_gateway.Base.{
  ℕ, ℤ, eqb, eqb_ℤ, String, List, [], ◌∷◌, ◌++◌, Option, none, some, ◌==◌, if◌then◌else◌,
}
use copilot_pool_gateway.Anthropic.Types.{
  ToolCall, ChoiceMsg, Choice, ChatCompletionResponse, map_openai_stop_reason,
}
use copilot_pool_gateway.Anthropic.Stream.{
  text, tool_use, StreamEvent, message_start, ping, content_block_start, text_delta,
  input_json_delta, content_block_stop, message_delta, index_of,
}

-- A piece of the answer: of its text, the start of a call, of the arguments of the call with the ID
-- if there is one, or its end with the upstream's reason.
pub data Piece : Type 0 where
  said : String → Piece
  called : String → String → Piece
  argued : Option String → String → Piece
  ended : String → Piece

-- The IDs of the calls that blocks are of, the newest first.
abbrev pub Blocks : Type 0
Blocks = List (ℕ × String)

unfoldable pub owner : ℕ → Blocks → Option String
owner i [] = none
owner i ((j, id) ∷ rest) = let older = owner i rest in if eqb j i then some id else older

-- What a client has kept after the events.
unfoldable pub blocks_after : List StreamEvent → Blocks → Blocks
blocks_after [] b = b
blocks_after (content_block_start i (tool_use id name) ∷ rest) b = blocks_after rest ((i, id) ∷ b)
blocks_after (content_block_start i text ∷ rest) b = blocks_after rest b
blocks_after (text_delta i t ∷ rest) b = blocks_after rest b
blocks_after (input_json_delta i t ∷ rest) b = blocks_after rest b
blocks_after (message_delta reason usage ∷ rest) b = blocks_after rest b
blocks_after (message_start id model usage ∷ rest) b = blocks_after rest b
blocks_after (ping ∷ rest) b = blocks_after rest b
blocks_after (content_block_stop i ∷ rest) b = blocks_after rest b

-- The pieces that it reads off the events.
unfoldable pub pieces : List StreamEvent → Blocks → List Piece
unfolding owner
pieces [] b = []
pieces (text_delta i t ∷ rest) b = said t ∷ pieces rest b
pieces (content_block_start i (tool_use id name) ∷ rest) b =
    called id name ∷ pieces rest ((i, id) ∷ b)
pieces (content_block_start i text ∷ rest) b = pieces rest b
pieces (input_json_delta i t ∷ rest) b = argued (owner i b) t ∷ pieces rest b
pieces (message_delta reason usage ∷ rest) b = ended reason ∷ pieces rest b
pieces (message_start id model usage ∷ rest) b = pieces rest b
pieces (ping ∷ rest) b = pieces rest b
pieces (content_block_stop i ∷ rest) b = pieces rest b

-- The IDs of the calls that the upstream started at its indexes, the newest first.
abbrev pub Calls : Type 0
Calls = List (ℤ × String)

unfoldable pub call_owner : ℤ → Calls → Option String
call_owner i [] = none
call_owner i ((j, id) ∷ rest) =
    let older = call_owner i rest in if eqb_ℤ j i then some id else older

abbrev pub unless_empty : String → Piece → List Piece
unless_empty t p = if t == "" then [] else p ∷ []

abbrev pub with_started : ToolCall → Calls → Calls
with_started tc k = if tc.id == "" then k else (index_of tc.index, tc.id) ∷ k

unfoldable pub calls_after : List ToolCall → Calls → Calls
calls_after [] k = k
calls_after (tc ∷ rest) k = calls_after rest (with_started tc k)

-- The pieces that the upstream sent.
unfoldable pub call_pieces : List ToolCall → Calls → List Piece
unfolding call_owner
call_pieces [] k = []
call_pieces (tc ∷ rest) k =
    (unless_empty tc.id (called tc.id tc.name)
      ++ unless_empty tc.arguments
          (argued (call_owner (index_of tc.index) (with_started tc k)) tc.arguments))
    ++ call_pieces rest (with_started tc k)

abbrev pub delta_pieces : Option ChoiceMsg → Calls → List Piece
delta_pieces none k = []
delta_pieces (some d) k = unless_empty d.content (said d.content) ++ call_pieces d.tool_calls k

abbrev pub delta_calls : Option ChoiceMsg → Calls → Calls
delta_calls none k = k
delta_calls (some d) k = calls_after d.tool_calls k

abbrev pub finish_pieces : Option String → List Piece
finish_pieces none = []
finish_pieces (some reason) = ended (map_openai_stop_reason reason) ∷ []

unfoldable pub choices_calls : List Choice → Calls → Calls
unfolding calls_after
choices_calls [] k = k
choices_calls (c ∷ rest) k = choices_calls rest (delta_calls c.delta k)

unfoldable pub choice_pieces : List Choice → Calls → List Piece
unfolding call_pieces calls_after
choice_pieces [] k = []
choice_pieces (c ∷ rest) k =
    (delta_pieces c.delta k ++ finish_pieces c.finish_reason)
    ++ choice_pieces rest (delta_calls c.delta k)

unfoldable pub chunk_pieces : List (ℕ × ChatCompletionResponse) → Calls → List Piece
unfolding choice_pieces choices_calls
chunk_pieces [] k = []
chunk_pieces ((now, chunk) ∷ rest) k =
    choice_pieces chunk.choices k ++ chunk_pieces rest (choices_calls chunk.choices k)
