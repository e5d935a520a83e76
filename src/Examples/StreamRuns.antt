-- ===== src/Examples/StreamRuns.antt =====
-- The theorems on the stream translation, at a stream with a text and a call.
use copilot_pool_gateway.Base.{true, refl, ℕ, pos, String, ◌≡◌, List, [], ◌∷◌, Option, none, some}
use copilot_pool_gateway.Anthropic.Types.{ToolCall, ChatCompletionResponse}
use copilot_pool_gateway.Anthropic.Stream.Ordered.{stream_ordered}
use copilot_pool_gateway.Anthropic.Stream.{new_stream, translate_stream}
use copilot_pool_gateway.Anthropic.Stream.Protocol.{Reader, new_reader, read_all}
use copilot_pool_gateway.Anthropic.Stream.Protocol.Runs.{read_all-translate_stream}
use copilot_pool_gateway.Anthropic.Stream.Content.{pieces, chunk_pieces}
use copilot_pool_gateway.Anthropic.Stream.Content.Streams.{pieces-translate_stream}

abbrev chunk : String → List ToolCall → Option String → ChatCompletionResponse
chunk content calls reason = record {
  id = "c1";
  model = "gpt-4";
  choices =
      record {
        message = none;
        delta = some (record { content = content; tool_calls = calls });
        finish_reason = reason;
      }
      ∷ [];
  usage = none;
}

abbrev chunks : List (ℕ × ChatCompletionResponse)
chunks =
    (1, chunk "Hel" [] none)
    ∷ (2, chunk "lo" [] none)
    ∷ (
      3,
      chunk "" (record { id = "t1"; index = some (pos 0); name = "ls"; arguments = "{" } ∷ []) none,
    )
    ∷ (4, chunk "" (record { id = ""; index = some (pos 0); name = ""; arguments = "}" } ∷ []) none)
    ∷ (
      5,
      chunk "" (record { id = "t2"; index = some (pos 1); name = "cat"; arguments = "{}" } ∷ [])
          (some "tool_calls"),
    )
    ∷ []

chunks_ordered : stream_ordered chunks none ≡ true
unfolding stream_ordered
chunks_ordered = refl

read_all-translate_stream_example :
    (r : Reader) × (read_all (translate_stream chunks new_stream).0 new_reader ≡ some r)
    × (r.opened ≡ (translate_stream chunks new_stream).1.content_block_open)
    × (r.block ≡ (translate_stream chunks new_stream).1.content_block_index)
read_all-translate_stream_example = read_all-translate_stream chunks chunks_ordered

pieces-translate_stream_example :
    pieces (translate_stream chunks new_stream).0 [] ≡ chunk_pieces chunks []
pieces-translate_stream_example = pieces-translate_stream chunks chunks_ordered
