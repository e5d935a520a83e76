-- ===== src/Anthropic/Stream/Ordered.antt =====
-- A stream whose calls do not interleave: a fragment of arguments belongs to the call that the
-- upstream started last, and no text and no end of a choice came since. The state is the index of
-- that call.
use copilot_pool_gateway.Base.{
  ℕ, ℤ, eqb_ℤ, String, Bool, true, false, ◌||◌, ◌&&◌, List, [], ◌∷◌, Option, none, some, ◌==◌,
  if◌then◌else◌, ◌≡◌, arith,
}
use copilot_pool_gateway.Anthropic.Types.{ToolCall, ChoiceMsg, Choice, ChatCompletionResponse}
use copilot_pool_gateway.Anthropic.Stream.{index_of}

abbrev pub follow_text : String → Option ℤ → Option ℤ
follow_text content c = if content == "" then c else none

abbrev pub follow_call : ToolCall → Option ℤ → Option ℤ
follow_call tc c = if tc.id == "" then c else some (index_of tc.index)

abbrev pub is_current : Option ℤ → ℤ → Bool
is_current none i = false
is_current (some j) i = eqb_ℤ j i

abbrev pub arguments_ordered : ToolCall → Option ℤ → Bool
arguments_ordered tc c = tc.arguments == "" || is_current c (index_of tc.index)

unfoldable pub follow_calls : List ToolCall → Option ℤ → Option ℤ
follow_calls [] c = c
follow_calls (tc ∷ rest) c = follow_calls rest (follow_call tc c)

unfoldable pub calls_ordered : List ToolCall → Option ℤ → Bool
calls_ordered [] c = true
calls_ordered (tc ∷ rest) c =
    arguments_ordered tc (follow_call tc c) && calls_ordered rest (follow_call tc c)

abbrev pub follow_delta : Option ChoiceMsg → Option ℤ → Option ℤ
follow_delta none c = c
follow_delta (some d) c = follow_calls d.tool_calls (follow_text d.content c)

abbrev pub delta_ordered : Option ChoiceMsg → Option ℤ → Bool
delta_ordered none c = true
delta_ordered (some d) c = calls_ordered d.tool_calls (follow_text d.content c)

abbrev pub follow_finish : Option String → Option ℤ → Option ℤ
follow_finish none c = c
follow_finish (some reason) c = none

abbrev pub follow_choice : Choice → Option ℤ → Option ℤ
follow_choice choice c = follow_finish choice.finish_reason (follow_delta choice.delta c)

unfoldable pub follow_choices : List Choice → Option ℤ → Option ℤ
unfolding follow_calls
follow_choices [] c = c
follow_choices (choice ∷ rest) c = follow_choices rest (follow_choice choice c)

unfoldable pub choices_ordered : List Choice → Option ℤ → Bool
unfolding calls_ordered follow_calls
choices_ordered [] c = true
choices_ordered (choice ∷ rest) c =
    delta_ordered choice.delta c && choices_ordered rest (follow_choice choice c)

-- The call that is current after a whole stream
unfoldable pub follow_stream : List (ℕ × ChatCompletionResponse) → Option ℤ → Option ℤ
unfolding follow_choices
follow_stream [] c = c
follow_stream ((now, chunk) ∷ rest) c = follow_stream rest (follow_choices chunk.choices c)

unfoldable pub stream_ordered : List (ℕ × ChatCompletionResponse) → Option ℤ → Bool
unfolding choices_ordered follow_choices
stream_ordered [] c = true
stream_ordered ((now, chunk) ∷ rest) c =
    choices_ordered chunk.choices c && stream_ordered rest (follow_choices chunk.choices c)

pub first : (a b : Bool) → (a && b) ≡ true → a ≡ true
first a b h = ground arith

pub second : (a b : Bool) → (a && b) ≡ true → b ≡ true
second a b h = ground arith
