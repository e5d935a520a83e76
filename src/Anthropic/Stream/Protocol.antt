-- ===== src/Anthropic/Stream/Protocol.antt =====
-- The order of the events, as a client checks it.
pub mod Steps
pub mod Runs
use copilot_pool_gateway.Base.{
  ℕ, ◌+◌, ℤ, String, ◌≡◌, refl, sym, ap, ◌∙◌, subst, Bool, true, false, not, ◌&&◌, ◌||◌, List, [],
  ◌∷◌, ◌++◌, Option, none, some, arith, ◌==◌, if◌then◌else◌, eqb, eqb_iff, Bool-cases, inl, inr,
}
use copilot_pool_gateway.Anthropic.Types.{ToolCall, ChoiceMsg, Choice, ChatCompletionResponse}
use copilot_pool_gateway.Anthropic.Stream.{
  ToolCallState, StreamState, Block, text, tool_use, StreamEvent, message_start, ping,
  content_block_start, text_delta, input_json_delta, content_block_stop, message_delta, Output,
  ◌>>>◌, emit, close_content_block, open_block, has_calls, text_event, text_block, index_of,
  translate_text, put_call, add_arguments, with_call, start_call, translate_arguments,
  translate_calls, message_end, translate_finish, translate_delta, translate_choice,
  translate_choices, absorb, start_message, translate_chunk, new_stream, translate_stream,
}

-- What a client knows of the message that it reads: whether it has begun, which block is open and
-- whether that is a text, and the index of the next or open block.
pub record Reader : Type 0 where
  pub begun : Bool
  pub opened : Bool
  pub is_text : Bool
  pub block : ℕ

abbrev pub is_text_block : Block → Bool
is_text_block text = true
is_text_block (tool_use id name) = false

abbrev pub when : Bool → Reader → Option Reader
when b r = if b then some r else none

-- The events that may come next. A message begins once; blocks do not overlap and are numbered from
-- 0; a text goes to the open block, which is one of text, and a fragment of JSON to the open block,
-- which is one of a tool's use; the message's end comes while no block is open.
unfoldable pub read : StreamEvent → Reader → Option Reader
read (message_start id model usage) r = when (not r.begun) (record r { begun = true })
read ping r = when r.begun r
read (content_block_start i b) r =
    when (r.begun && not r.opened && eqb i r.block)
      (record r { opened = true; is_text = is_text_block b })
read (text_delta i t) r = when (r.begun && r.opened && r.is_text && eqb i r.block) r
read (input_json_delta i t) r = when (r.begun && r.opened && not r.is_text && eqb i r.block) r
read (content_block_stop i) r =
    when (r.begun && r.opened && eqb i r.block) (record r { opened = false; block = r.block + 1 })
read (message_delta reason usage) r = when (r.begun && not r.opened) r

abbrev and_then : Option Reader → (Reader → Option Reader) → Option Reader
and_then none f = none
and_then (some r) f = f r

unfoldable pub read_all : List StreamEvent → Reader → Option Reader
unfolding read
read_all [] r = some r
read_all (e ∷ rest) r = and_then (read e r) (read_all rest)

abbrev pub is_some : Option ℤ → Bool
is_some none = false
is_some (some i) = true

-- The reader knows what the translation does; while a call is current, its block is open.
pub record Tracks (c : Option ℤ) (r : Reader) (s : StreamState) : Type 0 where
  pub begun : r.begun ≡ true
  pub sent : s.message_start_sent ≡ true
  pub same_open : r.opened ≡ s.content_block_open
  pub same_block : r.block ≡ s.content_block_index
  pub text_first : (s.content_block_open && not (has_calls s.tool_calls)) ≡ true → r.is_text ≡ true
  pub in_call : is_some c ≡ true → (r.opened && not r.is_text) ≡ true

-- The reader accepts the events of a step, and then knows its state.
unfoldable pub Accepts : Option ℤ → Reader → Output → Type 0
Accepts c r (events, s) = (r' : Reader) × (read_all events r ≡ some r') × Tracks c r' s

read_all-append :
    (xs ys : List StreamEvent) (r : Reader)
    → read_all (xs ++ ys) r ≡ and_then (read_all xs r) (read_all ys)
unfolding read_all
read_all-append [] ys r = refl
read_all-append (e ∷ xs) ys r =
    elim (read e r)
      as (λ o.
        and_then o (read_all (xs ++ ys)) ≡ and_then (and_then o (read_all xs)) (read_all ys)) [
          | none ↦ refl
          | some r' ↦ read_all-append xs ys r'
        ]

pub Accepts->>> :
    (c d : Option ℤ) (r : Reader) (m : Output) (f : StreamState → Output)
    → Accepts c r m
    → ((r' : Reader) → Tracks c r' m.1 → Accepts d r' (f m.1))
    → Accepts d r (m >>> f)
unfolding Accepts
Accepts->>> c d r (events, s) f (r', e, t) next =
    let (r'', e', t') = next r' t in
    (r'', read_all-append events (f s).0 r ∙ ap (λ o. and_then o (read_all (f s).0)) e ∙ e', t')

pub nothing : (c : Option ℤ) (r : Reader) (s : StreamState) → Tracks c r s → Accepts c r ([], s)
unfolding Accepts read_all
nothing c r s t = (r, refl, t)

pub one_event :
    (c : Option ℤ) (r r' : Reader) (e : StreamEvent) (s : StreamState)
    → read e r ≡ some r'
    → Tracks c r' s
    → Accepts c r (emit e s)
unfolding Accepts read_all
one_event c r r' e s h t = (r', ap (λ o. and_then o (read_all [])) h, t)

-- A branch, with the call that is current after each of its sides.
pub if_Accepts :
    (b : Bool) (c d : Option ℤ) (r : Reader) (x y : Output)
    → (b ≡ true → Accepts c r x)
    → (b ≡ false → Accepts d r y)
    → Accepts (if b then c else d) r (if b then x else y)
if_Accepts true c d r x y f g = f refl
if_Accepts false c d r x y f g = g refl

pub same_Accepts :
    (b : Bool) (c : Option ℤ) (r : Reader) (x y : Output)
    → (b ≡ true → Accepts c r x)
    → (b ≡ false → Accepts c r y)
    → Accepts c r (if b then x else y)
same_Accepts true c r x y f g = f refl
same_Accepts false c r x y f g = g refl

abbrev pub new_reader : Reader
new_reader = record { begun = false; opened = false; is_text = false; block = 0 }
