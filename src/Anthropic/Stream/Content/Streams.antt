-- ===== src/Anthropic/Stream/Content/Streams.antt =====
-- What the events of a whole stream carry, and for which call.
use copilot_pool_gateway.Base.{
  ℕ, ℤ, String, ◌≡◌, refl, ◌∙◌, Bool, true, false, ◌||◌, List, [], ◌∷◌, Option, none, some, ◌==◌,
  if◌then◌else◌,
}
use copilot_pool_gateway.Anthropic.Types.{ToolCall, ChoiceMsg, Choice, ChatCompletionResponse}
use copilot_pool_gateway.Anthropic.Stream.{
  StreamState, input_json_delta, close_content_block, index_of, add_arguments, message_end,
  translate_text, start_call, translate_arguments, translate_calls, translate_finish,
  translate_delta, translate_choice, translate_choices, absorb, start_message, translate_chunk,
  new_stream, translate_stream,
}
use copilot_pool_gateway.Anthropic.Stream.Ordered.{
  follow_stream, follow_text, follow_call, is_current, arguments_ordered, follow_calls,
  calls_ordered, follow_delta, delta_ordered, follow_finish, follow_choice, follow_choices,
  choices_ordered, stream_ordered, first, second,
}
use copilot_pool_gateway.Anthropic.Stream.Content.{
  argued, Blocks, Calls, call_owner, blocks_after, pieces, unless_empty, with_started, calls_after,
  call_pieces, delta_pieces, delta_calls, finish_pieces, choices_calls, choice_pieces, chunk_pieces,
}
use copilot_pool_gateway.Anthropic.Stream.Content.Attributed.{
  Knows, Says, Says->>>, nothing_said, Says-close_content_block, Says-translate_text,
  Says-start_call, Says-arguments_event, current_owner, same_index, same_Says,
}

Says-translate_arguments :
    (tc : ToolCall) (c : Option ℤ) (k : Calls) (b : Blocks) (s : StreamState)
    → arguments_ordered tc c ≡ true
    → Knows c k b s
    → Says c k
        (unless_empty tc.arguments (argued (call_owner (index_of tc.index) k) tc.arguments))
        b
        (translate_arguments tc s)
unfolding translate_arguments
Says-translate_arguments tc c k b s ordered h =
    chosen (tc.arguments == "") (is_current c i) ordered refl
  where
    i : ℤ
    i = index_of tc.index

    added : StreamState
    added = record s { tool_calls = add_arguments s.tool_calls i tc.arguments }

    chosen :
        (e now : Bool)
        → (e || now) ≡ true
        → is_current c i ≡ now
        → Says c k (if e then [] else argued (call_owner i k) tc.arguments ∷ []) b (
            if e
            then ([], s)
            else (input_json_delta s.content_block_index tc.arguments ∷ [], added))
    chosen true now o e = nothing_said c k b s h
    chosen false now o e =
        Says-arguments_event tc.arguments i c k b s added (current_owner c i k b s (e ∙ o) h)
          (same_index c k b s added refl h)

Says-translate_calls :
    (calls : List ToolCall) (c : Option ℤ) (k : Calls) (b : Blocks) (s : StreamState)
    → calls_ordered calls c ≡ true
    → Knows c k b s
    → Says
        (follow_calls calls c)
        (calls_after calls k)
        (call_pieces calls k)
        b
        (translate_calls calls s)
unfolding translate_calls calls_ordered follow_calls calls_after call_pieces
Says-translate_calls [] c k b s o h = nothing_said c k b s h
Says-translate_calls (tc ∷ rest) c k b s o h =
    let c' = follow_call tc c in
    let k' = with_started tc k in
    Says->>> c' (follow_calls rest c') k' (calls_after rest k') _ (call_pieces rest k') b _
      (translate_calls rest)
      (Says->>> c' c' k' k' _ _ b (start_call tc s) (translate_arguments tc)
        (Says-start_call tc c k b s h)
        (λ b' h'. Says-translate_arguments tc c' k' b' _ (first (arguments_ordered tc c') _ o) h'))
      (λ b' h'. Says-translate_calls rest c' k' b' _ (second (arguments_ordered tc c') _ o) h')

Says-message_end :
    (reason : String) (k : Calls) (b : Blocks) (s : StreamState)
    → Says none k (finish_pieces (some reason)) b (message_end reason s)
unfolding Says pieces blocks_after Knows
Says-message_end reason k b s = (refl, tt)

Says-translate_finish :
    (reason : Option String) (c : Option ℤ) (k : Calls) (b : Blocks) (s : StreamState)
    → Knows c k b s
    → Says (follow_finish reason c) k (finish_pieces reason) b (translate_finish reason s)
unfolding translate_finish
Says-translate_finish none c k b s h = nothing_said c k b s h
Says-translate_finish (some reason) c k b s h =
    Says->>> none none k k [] (finish_pieces (some reason)) b (close_content_block s)
      (message_end reason) (Says-close_content_block k b s) (λ b' _. Says-message_end reason k b' _)

Says-translate_delta :
    (d : Option ChoiceMsg) (c : Option ℤ) (k : Calls) (b : Blocks) (s : StreamState)
    → delta_ordered d c ≡ true
    → Knows c k b s
    → Says (follow_delta d c) (delta_calls d k) (delta_pieces d k) b (translate_delta d s)
Says-translate_delta none c k b s o h = nothing_said c k b s h
Says-translate_delta (some d) c k b s o h =
    let c' = follow_text d.content c in
    Says->>> c' (follow_calls d.tool_calls c') k (calls_after d.tool_calls k) _
      (call_pieces d.tool_calls k) b (translate_text d.content s) (translate_calls d.tool_calls)
      (Says-translate_text d.content c k b s h)
      (λ b' h'. Says-translate_calls d.tool_calls c' k b' _ o h')

Says-translate_choices :
    (choices : List Choice) (c : Option ℤ) (k : Calls) (b : Blocks) (s : StreamState)
    → choices_ordered choices c ≡ true
    → Knows c k b s
    → Says
        (follow_choices choices c)
        (choices_calls choices k)
        (choice_pieces choices k)
        b
        (translate_choices choices s)
unfolding translate_choices translate_choice choices_ordered follow_choices choices_calls
    choice_pieces
Says-translate_choices [] c k b s o h = nothing_said c k b s h
Says-translate_choices (choice ∷ rest) c k b s o h =
    let told = follow_delta choice.delta c in
    let c' = follow_choice choice c in
    let k' = delta_calls choice.delta k in
    Says->>> c' (follow_choices rest c') k' (choices_calls rest k') _ (choice_pieces rest k') b _
      (translate_choices rest)
      (Says->>> told c' k' k' (delta_pieces choice.delta k) (finish_pieces choice.finish_reason) b
        (translate_delta choice.delta s) (translate_finish choice.finish_reason)
        (Says-translate_delta choice.delta c k b s (first (delta_ordered choice.delta c) _ o) h)
        (λ b' h'. Says-translate_finish choice.finish_reason told k' b' _ h'))
      (λ b' h'.
        Says-translate_choices rest c' k' b' _ (second (delta_ordered choice.delta c) _ o) h')

Says-start_message :
    (now : ℕ) (c : Option ℤ) (k : Calls) (b : Blocks) (s : StreamState)
    → Knows c k b s
    → Says c k [] b (start_message now s)
unfolding start_message Says pieces blocks_after
Says-start_message now c k b s h =
    same_Says s.message_start_sent c k [] b ([], s) _ (refl, h) (refl, same_index c k b s _ refl h)

-- The calls that the upstream has started after the chunks.
unfoldable pub stream_calls : List (ℕ × ChatCompletionResponse) → Calls → Calls
unfolding choices_calls
stream_calls [] k = k
stream_calls ((now, chunk) ∷ rest) k = stream_calls rest (choices_calls chunk.choices k)

Says-translate_stream :
    (chunks : List (ℕ × ChatCompletionResponse)) (c : Option ℤ) (k : Calls) (b : Blocks)
    (s : StreamState)
    → stream_ordered chunks c ≡ true
    → Knows c k b s
    → Says
        (follow_stream chunks c)
        (stream_calls chunks k)
        (chunk_pieces chunks k)
        b
        (translate_stream chunks s)
unfolding translate_stream translate_chunk stream_ordered chunk_pieces follow_stream stream_calls
Says-translate_stream [] c k b s o h = nothing_said c k b s h
Says-translate_stream ((now, chunk) ∷ rest) c k b s o h =
    let c' = follow_choices chunk.choices c in
    let k' = choices_calls chunk.choices k in
    Says->>> c' (follow_stream rest c') k' (stream_calls rest k') (choice_pieces chunk.choices k)
      (chunk_pieces rest k') b (translate_chunk now chunk s) (translate_stream rest)
      (Says->>> c c' k k' [] (choice_pieces chunk.choices k) b (start_message now (absorb chunk s))
        (translate_choices chunk.choices)
        (Says-start_message now c k b (absorb chunk s) (same_index c k b s (absorb chunk s) refl h))
        (λ b' h'.
          Says-translate_choices chunk.choices c k b' _
            (first (choices_ordered chunk.choices c) _ o) h'))
      (λ b' h'.
        Says-translate_stream rest c' k' b' _ (second (choices_ordered chunk.choices c) _ o) h')

-- Where the upstream's calls do not interleave (each fragment of arguments belongs to the call that
-- was started last, with no text and no end of a choice since), nothing of an answer is lost,
-- doubled or reordered, however it is cut: the pieces of text, the calls, the fragments of their
-- arguments and the ends that a client reads off the events are, in order, the non-empty ones of the
-- upstream's chunks. Each fragment is of the same call on both sides: for the client the one that
-- the event's block is of, for the upstream the one that was started last at the fragment's index.
pub pieces-translate_stream :
    (chunks : List (ℕ × ChatCompletionResponse))
    → stream_ordered chunks none ≡ true
    → pieces (translate_stream chunks new_stream).0 [] ≡ chunk_pieces chunks []
unfolding Says Knows
pieces-translate_stream chunks o = (Says-translate_stream chunks none [] [] new_stream o tt).0
