-- ===== src/Anthropic/Stream/Content/Attributed.antt =====
-- What the events carry, and for which call, step by step.
use copilot_pool_gateway.Base.{
  subst, ℕ, ℤ, pos, negsuc, eqb_iff, eqb_ℤ, String, ◌≡◌, refl, sym, ap, ◌∙◌, Bool, true, false, not,
  ◌||◌, List, [], ◌∷◌, ◌++◌, Option, none, some, arith, ◌==◌, if◌then◌else◌,
}
use copilot_pool_gateway.Anthropic.Types.{ToolCall}
use copilot_pool_gateway.Anthropic.Stream.{
  StreamState, text, tool_use, StreamEvent, message_start, ping, content_block_start, text_delta,
  input_json_delta, content_block_stop, message_delta, Output, ◌>>>◌, close_content_block, index_of,
  open_block, with_call, has_calls, text_block, text_event, translate_text, start_call,
}
use copilot_pool_gateway.Anthropic.Stream.Ordered.{follow_text, follow_call, is_current}
use copilot_pool_gateway.Anthropic.Stream.Content.{
  Piece, said, called, argued, ended, Blocks, Calls, owner, call_owner, blocks_after, pieces,
  unless_empty, with_started,
}

pieces-append :
    (xs ys : List StreamEvent) (b : Blocks)
    → pieces (xs ++ ys) b ≡ pieces xs b ++ pieces ys (blocks_after xs b)
unfolding pieces blocks_after
pieces-append [] ys b = refl
pieces-append (text_delta i t ∷ xs) ys b = ap (λ ps. said t ∷ ps) (pieces-append xs ys b)
pieces-append (content_block_start i (tool_use id name) ∷ xs) ys b =
    ap (λ ps. called id name ∷ ps) (pieces-append xs ys ((i, id) ∷ b))
pieces-append (content_block_start i text ∷ xs) ys b = pieces-append xs ys b
pieces-append (input_json_delta i t ∷ xs) ys b =
    ap (λ ps. argued (owner i b) t ∷ ps) (pieces-append xs ys b)
pieces-append (message_delta reason usage ∷ xs) ys b =
    ap (λ ps. ended reason ∷ ps) (pieces-append xs ys b)
pieces-append (message_start id model usage ∷ xs) ys b = pieces-append xs ys b
pieces-append (ping ∷ xs) ys b = pieces-append xs ys b
pieces-append (content_block_stop i ∷ xs) ys b = pieces-append xs ys b

blocks_after-append :
    (xs ys : List StreamEvent) (b : Blocks)
    → blocks_after (xs ++ ys) b ≡ blocks_after ys (blocks_after xs b)
unfolding blocks_after
blocks_after-append [] ys b = refl
blocks_after-append (text_delta i t ∷ xs) ys b = blocks_after-append xs ys b
blocks_after-append (content_block_start i (tool_use id name) ∷ xs) ys b =
    blocks_after-append xs ys ((i, id) ∷ b)
blocks_after-append (content_block_start i text ∷ xs) ys b = blocks_after-append xs ys b
blocks_after-append (input_json_delta i t ∷ xs) ys b = blocks_after-append xs ys b
blocks_after-append (message_delta reason usage ∷ xs) ys b = blocks_after-append xs ys b
blocks_after-append (message_start id model usage ∷ xs) ys b = blocks_after-append xs ys b
blocks_after-append (ping ∷ xs) ys b = blocks_after-append xs ys b
blocks_after-append (content_block_stop i ∷ xs) ys b = blocks_after-append xs ys b

-- The current call is that of the newest block, for the client as for the upstream.
unfoldable pub Knows : Option ℤ → Calls → Blocks → StreamState → Type 0
Knows none k b s = Unit {0}
Knows (some i) k b s = owner s.content_block_index b ≡ call_owner i k

-- A step gives the pieces, and leaves the client with what it has to know.
unfoldable pub Says : Option ℤ → Calls → List Piece → Blocks → Output → Type 0
unfolding Knows
Says c k ps b (events, s) = (pieces events b ≡ ps) × Knows c k (blocks_after events b) s

pub Says->>> :
    (c d : Option ℤ) (k l : Calls) (ps qs : List Piece) (b : Blocks) (m : Output)
    (f : StreamState → Output)
    → Says c k ps b m
    → ((b' : Blocks) → Knows c k b' m.1 → Says d l qs b' (f m.1))
    → Says d l (ps ++ qs) b (m >>> f)
unfolding Says
Says->>> c d k l ps qs b (events, s) f (e, knows) next =
    let (g, after) = next (blocks_after events b) knows in
    (
      pieces-append events (f s).0 b
          ∙ ap (λ xs. xs ++ pieces (f s).0 (blocks_after events b)) e
          ∙ ap (λ ys. ps ++ ys) g,
      subst (λ b'. Knows d l b' (f s).1) (sym (blocks_after-append events (f s).0 b)) after,
    )

pub nothing_said :
    (c : Option ℤ) (k : Calls) (b : Blocks) (s : StreamState)
    → Knows c k b s
    → Says c k [] b ([], s)
unfolding Says pieces blocks_after
nothing_said c k b s h = (refl, h)

by_Bool : (e : Bool) (P : Bool → Type 0) → P true → P false → P e
by_Bool true P f g = f
by_Bool false P f g = g

pub same_Says :
    (e : Bool) (c : Option ℤ) (k : Calls) (ps : List Piece) (b : Blocks) (x y : Output)
    → Says c k ps b x
    → Says c k ps b y
    → Says c k ps b (if e then x else y)
same_Says true c k ps b x y f g = f
same_Says false c k ps b x y f g = g

pub Says-close_content_block :
    (k : Calls) (b : Blocks) (s : StreamState) → Says none k [] b (close_content_block s)
unfolding Says pieces Knows close_content_block blocks_after
Says-close_content_block k b s =
    same_Says s.content_block_open none k [] b _ ([], s) (refl, tt) (refl, tt)

Says-text_block :
    (content : String) (k : Calls) (b : Blocks) (s : StreamState)
    → Says none k (said content ∷ []) b (text_block content s)
unfolding Says pieces Knows blocks_after
Says-text_block content k b s = (refl, tt)

Says-text_event :
    (content : String) (k : Calls) (b : Blocks) (s : StreamState)
    → Says none k (said content ∷ []) b (text_event content s)
unfolding Says pieces Knows blocks_after
Says-text_event content k b s = (refl, tt)

pub Says-translate_text :
    (content : String) (c : Option ℤ) (k : Calls) (b : Blocks) (s : StreamState)
    → Knows c k b s
    → Says
        (follow_text content c)
        k
        (unless_empty content (said content))
        b
        (translate_text content s)
unfolding translate_text
Says-translate_text content c k b s h =
    let fresh : Output = close_content_block s >>> text_block content in
    let written : Output =
      if not s.content_block_open || has_calls s.tool_calls then fresh else text_event content s in
    by_Bool (content == "")
      (λ e.
        Says (if e then c else none) k (if e then [] else said content ∷ []) b
          (if e then ([], s) else written))
      (nothing_said c k b s h)
      (same_Says (not s.content_block_open || has_calls s.tool_calls) none k (said content ∷ []) b
        fresh (text_event content s)
        (Says->>> none none k k [] (said content ∷ []) b (close_content_block s)
          (text_block content) (Says-close_content_block k b s)
          (λ b' _. Says-text_block content k b' (close_content_block s).1))
        (Says-text_event content k b s))

eqb_ℤ-refl : (i : ℤ) → eqb_ℤ i i ≡ true
eqb_ℤ-refl (pos n) = (eqb_iff n n).1 refl
eqb_ℤ-refl (negsuc n) = (eqb_iff n n).1 refl

eqb_ℤ-eq : (i j : ℤ) → eqb_ℤ i j ≡ true → i ≡ j
eqb_ℤ-eq (pos m) (pos n) h = ap pos ((eqb_iff m n).0 h)
eqb_ℤ-eq (negsuc m) (negsuc n) h = ap negsuc ((eqb_iff m n).0 h)
eqb_ℤ-eq (pos m) (negsuc n) h = absurd (ground arith)
eqb_ℤ-eq (negsuc m) (pos n) h = absurd (ground arith)

-- A call that starts is the newest of its index and of its block.
newest_owner :
    (i : ℤ) (n : ℕ) (id : String) (k : Calls) (b : Blocks)
    → owner n ((n, id) ∷ b) ≡ call_owner i ((i, id) ∷ k)
unfolding owner call_owner
newest_owner i n id k b = rw ((eqb_iff n n).1 refl, eqb_ℤ-refl i) refl

Says-open_tool :
    (tc : ToolCall) (k : Calls) (b : Blocks) (s : StreamState)
    → Says
        (some (index_of tc.index))
        ((index_of tc.index, tc.id) ∷ k)
        (called tc.id tc.name ∷ [])
        b
        (open_block (tool_use tc.id tc.name) (with_call tc s))
unfolding Says pieces Knows blocks_after
Says-open_tool tc k b s = (refl, newest_owner (index_of tc.index) s.content_block_index tc.id k b)

pub Says-start_call :
    (tc : ToolCall) (c : Option ℤ) (k : Calls) (b : Blocks) (s : StreamState)
    → Knows c k b s
    → Says
        (follow_call tc c)
        (with_started tc k)
        (unless_empty tc.id (called tc.id tc.name))
        b
        (start_call tc s)
unfolding start_call
Says-start_call tc c k b s h =
    let i = index_of tc.index in
    let opened : Output =
      close_content_block s >>> λ s'. open_block (tool_use tc.id tc.name) (with_call tc s') in
    by_Bool (tc.id == "")
      (λ e.
        Says (if e then c else some i) (if e then k else (i, tc.id) ∷ k)
          (if e then [] else called tc.id tc.name ∷ []) b (if e then ([], s) else opened))
      (nothing_said c k b s h)
      (Says->>> none (some i) k ((i, tc.id) ∷ k) [] (called tc.id tc.name ∷ []) b
        (close_content_block s) (λ s'. open_block (tool_use tc.id tc.name) (with_call tc s'))
        (Says-close_content_block k b s) (λ b' _. Says-open_tool tc k b' (close_content_block s).1))

pub current_owner :
    (c : Option ℤ) (i : ℤ) (k : Calls) (b : Blocks) (s : StreamState)
    → is_current c i ≡ true
    → Knows c k b s
    → owner s.content_block_index b ≡ call_owner i k
unfolding Knows
current_owner none i k b s h e = absurd (ground arith)
current_owner (some j) i k b s h e = e ∙ ap (λ x. call_owner x k) (eqb_ℤ-eq j i h)

pub same_index :
    (c : Option ℤ) (k : Calls) (b : Blocks) (s t : StreamState)
    → t.content_block_index ≡ s.content_block_index
    → Knows c k b s
    → Knows c k b t
unfolding Knows
same_index none k b s t e h = tt
same_index (some i) k b s t e h = ap (λ n. owner n b) e ∙ h

pub Says-arguments_event :
    (t : String) (i : ℤ) (c : Option ℤ) (k : Calls) (b : Blocks) (s s' : StreamState)
    → owner s.content_block_index b ≡ call_owner i k
    → Knows c k b s'
    → Says c k
        (argued (call_owner i k) t ∷ [])
        b
        (input_json_delta s.content_block_index t ∷ [], s')
unfolding Says pieces blocks_after
Says-arguments_event t i c k b s s' e h = (ap (λ o. argued o t ∷ []) e, h)
