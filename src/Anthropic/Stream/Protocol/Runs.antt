-- ===== src/Anthropic/Stream/Protocol/Runs.antt =====
-- What the reader makes of a whole stream.
use copilot_pool_gateway.Anthropic.Stream.Ordered.{
  follow_stream, choices_ordered, follow_choices, stream_ordered, first, second,
}
use copilot_pool_gateway.Base.{
  ℤ, Option, none, ℕ, ◌≡◌, refl, sym, subst, true, List, [], ◌∷◌, some, arith,
}
use copilot_pool_gateway.Anthropic.Types.{ChatCompletionResponse}
use copilot_pool_gateway.Anthropic.Stream.{
  StreamState, translate_choices, absorb, start_message, translate_chunk, new_stream,
  translate_stream,
}
use copilot_pool_gateway.Anthropic.Stream.Protocol.{
  Reader, read, read_all, Tracks, Accepts, Accepts->>>, nothing, new_reader,
}
use copilot_pool_gateway.Anthropic.Stream.Protocol.Steps.{Accepts-translate_choices}

Accepts-start_message :
    (now : ℕ) (chunk : ChatCompletionResponse)
    → Accepts none new_reader (start_message now (absorb chunk new_stream))
unfolding Accepts start_message read_all read
Accepts-start_message now chunk = (record r { begun = true }, refl, ground arith)
  where
    r : Reader
    r = new_reader

started : (now : ℕ) (s : StreamState) → s.message_start_sent ≡ true → start_message now s ≡ ([], s)
unfolding start_message
started now s h = ground arith

Accepts-translate_chunk :
    (now : ℕ) (chunk : ChatCompletionResponse) (c : Option ℤ) (r : Reader) (s : StreamState)
    → choices_ordered chunk.choices c ≡ true
    → Accepts c r (start_message now (absorb chunk s))
    → Accepts (follow_choices chunk.choices c) r (translate_chunk now chunk s)
unfolding translate_chunk
Accepts-translate_chunk now chunk c r s o a =
    Accepts->>> c (follow_choices chunk.choices c) r _ (translate_choices chunk.choices) a
      (λ r' t'. Accepts-translate_choices chunk.choices c r' _ o t')

Accepts-absorb :
    (now : ℕ) (chunk : ChatCompletionResponse) (c : Option ℤ) (r : Reader) (s : StreamState)
    → Tracks c r s
    → Accepts c r (start_message now (absorb chunk s))
Accepts-absorb now chunk c r s t =
    subst (Accepts c r) (sym (started now (absorb chunk s) t.sent))
      (nothing c r (absorb chunk s) (ground arith))

Accepts-translate_stream :
    (chunks : List (ℕ × ChatCompletionResponse)) (c : Option ℤ) (r : Reader) (s : StreamState)
    → stream_ordered chunks c ≡ true
    → Tracks c r s
    → Accepts (follow_stream chunks c) r (translate_stream chunks s)
unfolding translate_stream stream_ordered follow_stream
Accepts-translate_stream [] c r s o t = nothing c r s t
Accepts-translate_stream ((now, chunk) ∷ rest) c r s o t =
    let c' = follow_choices chunk.choices c in
    Accepts->>> c' (follow_stream rest c') r _ (translate_stream rest)
      (Accepts-translate_chunk now chunk c r s (first (choices_ordered chunk.choices c) _ o)
        (Accepts-absorb now chunk c r s t))
      (λ r' t'.
        Accepts-translate_stream rest c' r' _ (second (choices_ordered chunk.choices c) _ o) t')

-- Where the upstream's calls do not interleave (each fragment of arguments belongs to the call that
-- was started last, with no text and no end of a choice since), and however its stream is cut, a
-- client that starts to read accepts every event: one message start before all else, blocks numbered
-- from 0 that never overlap, every text inside an open block of text, every fragment of JSON inside
-- an open block of a tool's use, and each end of the message while no block is open. In the end the
-- client and the translation agree on whether a block is open and on its index.
pub read_all-translate_stream :
    (chunks : List (ℕ × ChatCompletionResponse))
    → stream_ordered chunks none ≡ true
    → (r : Reader) × (read_all (translate_stream chunks new_stream).0 new_reader ≡ some r)
      × (r.opened ≡ (translate_stream chunks new_stream).1.content_block_open)
      × (r.block ≡ (translate_stream chunks new_stream).1.content_block_index)
unfolding translate_stream read_all Accepts stream_ordered
read_all-translate_stream [] o = (new_reader, refl, refl, refl)
read_all-translate_stream ((now, chunk) ∷ rest) o =
    let c = follow_choices chunk.choices none in
    let (r, e, t) =
      Accepts->>> c (follow_stream rest c) new_reader (translate_chunk now chunk new_stream)
        (translate_stream rest)
        (Accepts-translate_chunk now chunk none new_reader new_stream
          (first (choices_ordered chunk.choices none) _ o) (Accepts-start_message now chunk))
        (λ r' t'.
          Accepts-translate_stream rest c r' _ (second (choices_ordered chunk.choices none) _ o)
            t') in
    (r, e, t.same_open, t.same_block)
