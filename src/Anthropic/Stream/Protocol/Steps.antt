-- ===== src/Anthropic/Stream/Protocol/Steps.antt =====
-- What the reader makes of each step's events.
use copilot_pool_gateway.Anthropic.Stream.Ordered.{
  follow_text, follow_call, is_current, arguments_ordered, follow_calls, calls_ordered,
  follow_delta, delta_ordered, follow_finish, follow_choice, follow_choices, choices_ordered, first,
  second,
}
use copilot_pool_gateway.Base.{
  Bool, ◌+◌, ℤ, String, ◌≡◌, refl, true, false, not, ◌||◌, List, [], ◌∷◌, Option, none, some, arith,
  ◌==◌,
}
use copilot_pool_gateway.Anthropic.Types.{ToolCall, ChoiceMsg, Choice}
use copilot_pool_gateway.Anthropic.Stream.{
  ToolCallState, StreamState, tool_use, close_content_block, open_block, has_calls, text_event,
  text_block, index_of, translate_text, put_call, add_arguments, with_call, start_call,
  translate_arguments, translate_calls, message_end, translate_finish, translate_delta,
  translate_choice, translate_choices,
}
use copilot_pool_gateway.Anthropic.Stream.Protocol.{
  Reader, read, read_all, Tracks, Accepts, Accepts->>>, nothing, one_event, if_Accepts,
  same_Accepts, is_some,
}

pub Accepts-close_content_block :
    (c : Option ℤ) (r : Reader) (s : StreamState)
    → Tracks c r s
    → Accepts none r (close_content_block s)
unfolding close_content_block read
Accepts-close_content_block c r s t =
    same_Accepts s.content_block_open none r _ _
      (λ h.
        one_event none r (record r { opened = false; block = r.block + 1 }) _ _ (ground arith)
          (ground arith))
      (λ h. nothing none r s (ground arith))

-- A tool's block makes its call current.
pub Accepts-open_tool :
    (id name : String) (i : ℤ) (r : Reader) (s : StreamState)
    → s.content_block_open ≡ false
    → has_calls s.tool_calls ≡ true
    → Tracks none r s
    → Accepts (some i) r (open_block (tool_use id name) s)
unfolding read
Accepts-open_tool id name i r s h calls t =
    one_event (some i) r (record r { opened = true; is_text = false }) _ _ (ground arith)
      (ground arith)

pub Accepts-text_event :
    (content : String) (r : Reader) (s : StreamState)
    → s.content_block_open ≡ true
    → r.is_text ≡ true
    → Tracks none r s
    → Accepts none r (text_event content s)
unfolding read
Accepts-text_event content r s h i t = one_event none r r _ _ (ground arith) t

close-open : (s : StreamState) → (close_content_block s).1.content_block_open ≡ false
unfolding close_content_block
close-open s = ground arith

close-has_calls :
    (s : StreamState) → has_calls (close_content_block s).1.tool_calls ≡ has_calls s.tool_calls
unfolding close_content_block
close-has_calls s = ground arith

pub Accepts-text_block :
    (content : String) (r : Reader) (s : StreamState)
    → s.content_block_open ≡ false
    → Tracks none r s
    → Accepts none r (text_block content s)
unfolding Accepts read_all read
Accepts-text_block content r s h t =
    (record r { opened = true; is_text = true }, ground arith, ground arith)

Tracks-none : (c : Option ℤ) (r : Reader) (s : StreamState) → Tracks c r s → Tracks none r s
Tracks-none c r s t = ground arith

pub Accepts-translate_text :
    (content : String) (c : Option ℤ) (r : Reader) (s : StreamState)
    → Tracks c r s
    → Accepts (follow_text content c) r (translate_text content s)
unfolding translate_text
Accepts-translate_text content c r s t =
    if_Accepts (content == "") c none r _ _ (λ _. nothing c r s t)
      (λ _.
        same_Accepts (not s.content_block_open || has_calls s.tool_calls) none r _ _
          (λ _.
            Accepts->>> none none r (close_content_block s) (text_block content)
              (Accepts-close_content_block c r s t)
              (λ r' t'. Accepts-text_block content r' _ (close-open s) t'))
          (λ h.
            Accepts-text_event content r s (ground arith) (t.text_first (ground arith))
              (Tracks-none c r s t)))

has_calls-put_call :
    (m : List (ℤ × ToolCallState)) (i : ℤ) (c : ToolCallState) → has_calls (put_call m i c) ≡ true
unfolding put_call
has_calls-put_call [] i c = refl
has_calls-put_call (e ∷ rest) i c = ground arith

has_calls-add_arguments :
    (m : List (ℤ × ToolCallState)) (i : ℤ) (more : String)
    → has_calls (add_arguments m i more) ≡ has_calls m
unfolding add_arguments
has_calls-add_arguments [] i more = refl
has_calls-add_arguments (e ∷ rest) i more = ground arith

Tracks-with_call :
    (c : Option ℤ) (tc : ToolCall) (r : Reader) (s : StreamState)
    → Tracks c r s
    → Tracks c r (with_call tc s)
Tracks-with_call c tc r s t = ground (
  arith,
  has_calls-put_call s.tool_calls (index_of tc.index)
      (record { id = tc.id; name = tc.name; arguments = "" }),
)

pub Accepts-start_call :
    (tc : ToolCall) (c : Option ℤ) (r : Reader) (s : StreamState)
    → Tracks c r s
    → Accepts (follow_call tc c) r (start_call tc s)
unfolding start_call
Accepts-start_call tc c r s t =
    if_Accepts (tc.id == "") c (some (index_of tc.index)) r _ _ (λ _. nothing c r s t)
      (λ _.
        Accepts->>> none (some (index_of tc.index)) r (close_content_block s)
          (λ s'. open_block (tool_use tc.id tc.name) (with_call tc s'))
          (Accepts-close_content_block c r s t)
          (λ r' t'.
            Accepts-open_tool tc.id tc.name (index_of tc.index) r'
              (with_call tc (close_content_block s).1) (close-open s)
              (has_calls-put_call (close_content_block s).1.tool_calls (index_of tc.index)
                (record { id = tc.id; name = tc.name; arguments = "" }))
              (Tracks-with_call none tc r' _ t')))

is_some-is_current : (c : Option ℤ) (i : ℤ) → is_current c i ≡ true → is_some c ≡ true
is_some-is_current none i h = absurd (ground arith)
is_some-is_current (some j) i h = refl

either : (a b : Bool) → (a || b) ≡ true → a ≡ false → b ≡ true
either a b h e = ground arith

pub Accepts-translate_arguments :
    (tc : ToolCall) (c : Option ℤ) (r : Reader) (s : StreamState)
    → arguments_ordered tc c ≡ true
    → Tracks c r s
    → Accepts c r (translate_arguments tc s)
unfolding translate_arguments read
Accepts-translate_arguments tc c r s ordered t =
    same_Accepts (tc.arguments == "") c r _ _ (λ _. nothing c r s t)
      (λ more.
        let open_tool = t.in_call (
          is_some-is_current c (index_of tc.index)
            (either (tc.arguments == "") (is_current c (index_of tc.index)) ordered more)) in
        one_event c r r _ _ (ground (arith, open_tool, t))
          (ground (arith, has_calls-add_arguments s.tool_calls (index_of tc.index) tc.arguments)))

pub Accepts-translate_calls :
    (calls : List ToolCall) (c : Option ℤ) (r : Reader) (s : StreamState)
    → calls_ordered calls c ≡ true
    → Tracks c r s
    → Accepts (follow_calls calls c) r (translate_calls calls s)
unfolding translate_calls calls_ordered follow_calls
Accepts-translate_calls [] c r s o t = nothing c r s t
Accepts-translate_calls (tc ∷ rest) c r s o t =
    let c' = follow_call tc c in
    Accepts->>> c' (follow_calls rest c') r _ (translate_calls rest)
      (Accepts->>> c' c' r _ (translate_arguments tc) (Accepts-start_call tc c r s t)
        (λ r' t'. Accepts-translate_arguments tc c' r' _ (first (arguments_ordered tc c') _ o) t'))
      (λ r' t'. Accepts-translate_calls rest c' r' _ (second (arguments_ordered tc c') _ o) t')

pub Accepts-translate_finish :
    (reason : Option String) (c : Option ℤ) (r : Reader) (s : StreamState)
    → Tracks c r s
    → Accepts (follow_finish reason c) r (translate_finish reason s)
unfolding translate_finish read
Accepts-translate_finish none c r s t = nothing c r s t
Accepts-translate_finish (some reason) c r s t =
    Accepts->>> none none r (close_content_block s) (message_end reason)
      (Accepts-close_content_block c r s t)
      (λ r' t'. one_event none r' r' _ _ (ground (arith, close-open s)) t')

pub Accepts-translate_delta :
    (d : Option ChoiceMsg) (c : Option ℤ) (r : Reader) (s : StreamState)
    → delta_ordered d c ≡ true
    → Tracks c r s
    → Accepts (follow_delta d c) r (translate_delta d s)
Accepts-translate_delta none c r s o t = nothing c r s t
Accepts-translate_delta (some d) c r s o t =
    let c' = follow_text d.content c in
    Accepts->>> c' (follow_calls d.tool_calls c') r _ (translate_calls d.tool_calls)
      (Accepts-translate_text d.content c r s t)
      (λ r' t'. Accepts-translate_calls d.tool_calls c' r' _ o t')

pub Accepts-translate_choices :
    (choices : List Choice) (c : Option ℤ) (r : Reader) (s : StreamState)
    → choices_ordered choices c ≡ true
    → Tracks c r s
    → Accepts (follow_choices choices c) r (translate_choices choices s)
unfolding translate_choices translate_choice choices_ordered follow_choices
Accepts-translate_choices [] c r s o t = nothing c r s t
Accepts-translate_choices (choice ∷ rest) c r s o t =
    let told = follow_delta choice.delta c in
    let c' = follow_choice choice c in
    Accepts->>> c' (follow_choices rest c') r _ (translate_choices rest)
      (Accepts->>> told c' r _ (translate_finish choice.finish_reason)
        (Accepts-translate_delta choice.delta c r s (first (delta_ordered choice.delta c) _ o) t)
        (λ r' t'. Accepts-translate_finish choice.finish_reason told r' _ t'))
      (λ r' t'.
        Accepts-translate_choices rest c' r' _ (second (delta_ordered choice.delta c) _ o) t')
