-- ===== src/Instance/ToolValidation/Newest.antt =====
-- Which messages the validation of instance/tool_validation.go compares.
use copilot_pool_gateway.Base.{
  String, ◌≡◌, refl, sym, ap, ◌∙◌, subst, Bool, true, false, ◌||◌, List, [], ◌∷◌, ◌++◌, Option,
  none, arith, ◌==◌, eq_iff, ◌⊎◌, ◌↔◌, inl, if◌then◌else◌,
}
use copilot_pool_gateway.Instance.Turns.Session.{member}
use copilot_pool_gateway.Instance.ToolValidation.{
  AnthropicMessage, MessagesRewriteError, collect_anthropic_tool_use_ids,
  collect_anthropic_tool_result_ids, result_ids_from, pending_ids_from, newest_first, is_empty,
  latest_anthropic_tool_result_ids, latest_anthropic_pending_tool_use_ids,
  validate_anthropic_tool_continuation,
}
use copilot_pool_gateway.Instance.ToolValidation.Matching.{validate_anthropic_tool_continuation_iff}

-- Whether one of the messages has the role.
unfoldable pub has_role : String → List AnthropicMessage → Bool
has_role role [] = false
has_role role (m ∷ rest) = m.role == role || has_role role rest

append_nil : (xs : List AnthropicMessage) → xs ++ [] ≡ xs
append_nil [] = refl
append_nil (x ∷ xs) = ap (λ ys. x ∷ ys) (append_nil xs)

append_assoc : (xs ys zs : List AnthropicMessage) → (xs ++ ys) ++ zs ≡ xs ++ (ys ++ zs)
append_assoc [] ys zs = refl
append_assoc (x ∷ xs) ys zs = ap (λ ws. x ∷ ws) (append_assoc xs ys zs)

newest_first-append :
    (xs ys : List AnthropicMessage) → newest_first (xs ++ ys) ≡ newest_first ys ++ newest_first xs
unfolding newest_first
newest_first-append [] ys = sym (append_nil (newest_first ys))
newest_first-append (x ∷ xs) ys =
    ap (λ zs. zs ++ (x ∷ [])) (newest_first-append xs ys)
    ∙ append_assoc (newest_first ys) (newest_first xs) (x ∷ [])

has_role-append :
    (role : String) (xs ys : List AnthropicMessage)
    → has_role role (xs ++ ys) ≡ (has_role role xs || has_role role ys)
unfolding has_role
has_role-append role [] ys = refl
has_role-append role (m ∷ xs) ys = ground (arith, has_role-append role xs ys)

has_role-newest_first :
    (role : String) (ms : List AnthropicMessage)
    → has_role role ms ≡ false
    → has_role role (newest_first ms) ≡ false
unfolding has_role newest_first
has_role-newest_first role [] h = refl
has_role-newest_first role (m ∷ ms) h =
    has_role-append role (newest_first ms) (m ∷ [])
    ∙ ground (arith, has_role-newest_first role ms (ground arith))

abbrev results : AnthropicMessage → List String
results m = collect_anthropic_tool_result_ids m.blocks

abbrev uses : AnthropicMessage → List String
uses m = collect_anthropic_tool_use_ids m.blocks

result_ids_from_newest :
    (later rest : List AnthropicMessage) (m : AnthropicMessage)
    → has_role "user" later ≡ false
    → (m.role == "user") ≡ true
    → result_ids_from (later ++ (m ∷ rest)) ≡ results m
unfolding result_ids_from has_role
result_ids_from_newest [] rest m h u = ground (arith, u)
result_ids_from_newest (l ∷ later) rest m h u =
    ground (arith, result_ids_from_newest later rest m (ground arith) u)

not_user : (m : AnthropicMessage) → (m.role == "assistant") ≡ true → (m.role == "user") ≡ false
not_user m h = ap (λ s. s == "user") ((eq_iff m.role "assistant").0 h)

still_seen :
    (b : Bool) (rest : List AnthropicMessage)
    → pending_ids_from (if b then true else true) rest ≡ pending_ids_from true rest
still_seen true rest = refl
still_seen false rest = refl

pending_seen :
    (between older : List AnthropicMessage) (a : AnthropicMessage)
    → has_role "assistant" between ≡ false
    → (a.role == "assistant") ≡ true
    → pending_ids_from true (between ++ (a ∷ older)) ≡ uses a
unfolding pending_ids_from has_role
pending_seen [] older a h r = ground (arith, r, not_user a r)
pending_seen (b ∷ between) older a h r = ground (
  arith,
  still_seen (is_empty (results b)) (between ++ (a ∷ older)),
  pending_seen between older a (ground arith) r,
)

pending_ids_from_newest :
    (later rest : List AnthropicMessage) (m : AnthropicMessage) (ids : List String)
    → has_role "user" later ≡ false
    → (m.role == "user") ≡ true
    → is_empty (results m) ≡ false
    → pending_ids_from true rest ≡ ids
    → pending_ids_from false (later ++ (m ∷ rest)) ≡ ids
unfolding pending_ids_from has_role
pending_ids_from_newest [] rest m ids h u n e =
    ground (arith, u, e, ap (λ b. pending_ids_from (if b then false else true) rest) n)
pending_ids_from_newest (l ∷ later) rest m ids h u n e =
    ground (arith, pending_ids_from_newest later rest m ids (ground arith) u n e)

newest_first-turn :
    (older between later : List AnthropicMessage) (a m : AnthropicMessage)
    → newest_first (older ++ (a ∷ (between ++ (m ∷ later))))
      ≡ newest_first later ++ (m ∷ (newest_first between ++ (a ∷ newest_first older)))
unfolding newest_first
newest_first-turn older between later a m =
    newest_first-append older (a ∷ (between ++ (m ∷ later)))
    ∙ ap (λ xs. (xs ++ (a ∷ [])) ++ newest_first older) (newest_first-append between (m ∷ later))
    ∙ append_assoc ((newest_first later ++ (m ∷ [])) ++ newest_first between) (a ∷ [])
        (newest_first older)
    ∙ append_assoc (newest_first later ++ (m ∷ [])) (newest_first between) (a ∷ newest_first older)
    ∙ append_assoc (newest_first later) (m ∷ []) (newest_first between ++ (a ∷ newest_first older))

abbrev Matches : List String → List String → Type 0
Matches provided pending =
    (is_empty provided ≡ true)
    ⊎ ((is_empty pending ≡ false) × ((id : String) → member id provided ≡ member id pending))

for_uses :
    (provided pending uses : List String)
    → (is_empty provided ≡ false → pending ≡ uses)
    → (o : Option MessagesRewriteError) → ((o ≡ none) ↔ Matches provided pending)
    → (o ≡ none) ↔ Matches provided uses
for_uses [] pending uses f o h = ((λ e. inl refl), (λ e. h.1 (inl refl)))
for_uses (x ∷ xs) pending uses f o h = subst (λ ids. (o ≡ none) ↔ Matches (x ∷ xs) ids) (f refl) h

-- For every request whose newest user message follows a message of the assistant, with no other
-- message of the assistant between them: it passes exactly if that user message has no tool result
-- with an identifier, or that message of the assistant has tool uses, and their identifiers are
-- exactly those of the results. Older messages, and what the assistant says later, do not count.
pub validate_anthropic_tool_continuation-newest :
    (older between later : List AnthropicMessage) (a m : AnthropicMessage)
    → (a.role == "assistant") ≡ true
    → has_role "assistant" between ≡ false
    → (m.role == "user") ≡ true
    → has_role "user" later ≡ false
    → (validate_anthropic_tool_continuation (older ++ (a ∷ (between ++ (m ∷ later)))) ≡ none) ↔ (
        (is_empty (collect_anthropic_tool_result_ids m.blocks) ≡ true)
        ⊎ ((is_empty (collect_anthropic_tool_use_ids a.blocks) ≡ false)
            × ((id : String)
                → member id (collect_anthropic_tool_result_ids m.blocks)
                  ≡ member id (collect_anthropic_tool_use_ids a.blocks))))
unfolding latest_anthropic_tool_result_ids latest_anthropic_pending_tool_use_ids
validate_anthropic_tool_continuation-newest older between later a m assistant alone user newest =
    let messages = older ++ (a ∷ (between ++ (m ∷ later))) in
    let rest = newest_first between ++ (a ∷ newest_first older) in
    let turned : newest_first messages ≡ newest_first later ++ (m ∷ rest) =
      newest_first-turn older between later a m in
    let last = has_role-newest_first "user" later newest in
    let provided =
      ap result_ids_from turned ∙ result_ids_from_newest (newest_first later) rest m last user in
    for_uses (results m) (latest_anthropic_pending_tool_use_ids messages) (uses a)
      (λ n.
        ap (pending_ids_from false) turned
        ∙ pending_ids_from_newest (newest_first later) rest m (uses a) last user n (
            pending_seen (newest_first between) (newest_first older) a
              (has_role-newest_first "assistant" between alone) assistant))
      (validate_anthropic_tool_continuation messages)
      (subst
        (λ ids.
          (validate_anthropic_tool_continuation messages ≡ none)
          ↔ Matches ids (latest_anthropic_pending_tool_use_ids messages))
        provided (validate_anthropic_tool_continuation_iff messages))
