-- ===== src/Instance/ToolValidation/Matching.antt =====
-- When a request's tool results pass.
use copilot_pool_gateway.Base.{
  String, ◌≡◌, ◌↔◌, ◌⊎◌, refl, Bool, true, false, not, ◌&&◌, ◌||◌, List, [], ◌∷◌, none, some, arith,
  ◌==◌, eq_iff, eq_refl, if◌then◌else◌, keep, trim, trim_idem, Bool-cases, inl, inr,
}
use copilot_pool_gateway.Instance.Turns.{unseen, unique_trimmed}
use copilot_pool_gateway.Instance.Turns.Session.{member}
use copilot_pool_gateway.Instance.ToolValidation.{
  AnthropicMessage, MessagesRewriteError, no_tool_use, mismatch, is_empty, diff_expected_strings,
  compare_ids, validate_anthropic_tool_continuation, latest_anthropic_tool_result_ids,
  latest_anthropic_pending_tool_use_ids, result_ids_from, pending_ids_from,
  collect_anthropic_tool_result_ids, collect_anthropic_tool_use_ids, newest_first,
}

-- Some value of the list is `x` once it is trimmed.
abbrev names : String → List String → Bool
names x [] = false
names x (v ∷ rest) = trim v == x || names x rest

member-unseen :
    (x : String) (seen values : List String)
    → member x (unseen seen values) ≡ (names x values && not (x == "") && not (member x seen))
unfolding unseen
member-unseen x seen [] = refl
member-unseen x seen (v ∷ rest) = ground (
  arith,
  member-unseen x seen rest,
  member-unseen x (trim v ∷ seen) rest,
  eq_iff (trim v) x,
  eq_iff (trim v) "",
  eq_iff x "",
)

names-unseen :
    (x : String) (seen values : List String)
    → names x (unseen seen values) ≡ member x (unseen seen values)
unfolding unseen
names-unseen x seen [] = refl
names-unseen x seen (v ∷ rest) =
    ground (arith, names-unseen x seen rest, names-unseen x (trim v ∷ seen) rest, trim_idem v)

-- Trimming and merging once more changes no member.
pub member-unique_trimmed :
    (x : String) (values : List String)
    → member x (unique_trimmed (unique_trimmed values)) ≡ member x (unique_trimmed values)
unfolding unique_trimmed
member-unique_trimmed x values = ground (
  arith,
  member-unseen x [] (unseen [] values),
  names-unseen x [] values,
  member-unseen x [] values,
)

abbrev pub IsTrimmed : List String → Type 0
IsTrimmed list = (x : String) → member x (unique_trimmed list) ≡ member x list

if_IsTrimmed :
    (b : Bool) (xs ys : List String)
    → IsTrimmed xs
    → IsTrimmed ys
    → IsTrimmed (if b then xs else ys)
if_IsTrimmed true xs ys p q = p
if_IsTrimmed false xs ys p q = q

nil-IsTrimmed : IsTrimmed []
unfolding unique_trimmed unseen
nil-IsTrimmed x = refl

result_ids_from-IsTrimmed : (ms : List AnthropicMessage) → IsTrimmed (result_ids_from ms)
unfolding result_ids_from collect_anthropic_tool_result_ids
result_ids_from-IsTrimmed [] = nil-IsTrimmed
result_ids_from-IsTrimmed (m ∷ rest) =
    if_IsTrimmed (m.role == "user") _ _ (λ x. member-unique_trimmed x _)
      (result_ids_from-IsTrimmed rest)

pending_ids_from-IsTrimmed :
    (ms : List AnthropicMessage) (seen : Bool) → IsTrimmed (pending_ids_from seen ms)
unfolding pending_ids_from collect_anthropic_tool_use_ids
pending_ids_from-IsTrimmed [] seen = nil-IsTrimmed
pending_ids_from-IsTrimmed (m ∷ rest) seen =
    if_IsTrimmed (m.role == "user") _ _ (pending_ids_from-IsTrimmed rest _) (
      if_IsTrimmed (m.role == "assistant" && seen) _ _ (λ x. member-unique_trimmed x _)
        (pending_ids_from-IsTrimmed rest seen))

-- No value that fails the test is left exactly if all members pass it.
is_empty-keep :
    (q : String → Bool) (list : List String)
    → (is_empty (keep (λ v. not (q v)) list) ≡ true)
      ↔ ((x : String) → (member x list && not (q x)) ≡ false)
is_empty-keep q [] = ((λ h x. refl), (λ h. refl))
is_empty-keep q (v ∷ rest) = elim (Bool-cases (q v)) [
  | inl t ↦ (
    (λ h x. ground (arith, (is_empty-keep q rest).0 (rw t at h) x, eq_iff v x)),
    (λ h. rw t ((is_empty-keep q rest).1 (λ x. ground (arith, h x)))),
  )
  | inr t ↦ ((λ h x. absurd (ground arith)), (λ h. absurd (ground (arith, h v, eq_refl v))))
]

both_empty :
    (a b : Bool) (e : MessagesRewriteError)
    → (if a && b then none else some e) ≡ none
    → (a ≡ true) × (b ≡ true)
both_empty true true e h = (refl, refl)
both_empty true false e h = absurd (ground arith)
both_empty false b e h = absurd (ground arith)

pub compare_ids_iff :
    (provided pending : List String)
    → IsTrimmed provided
    → IsTrimmed pending
    → (compare_ids provided pending ≡ none)
      ↔ ((id : String) → member id provided ≡ member id pending)
unfolding compare_ids diff_expected_strings
compare_ids_iff provided pending p q =
    let missing =
      is_empty-keep (λ v. member v (unique_trimmed provided)) (unique_trimmed pending) in
    let extra = is_empty-keep (λ v. member v (unique_trimmed pending)) (unique_trimmed provided) in
    (
      (λ h x.
          let (a, b) =
            both_empty (is_empty (diff_expected_strings pending provided))
              (is_empty (diff_expected_strings provided pending))
              (mismatch pending (diff_expected_strings pending provided)
                (diff_expected_strings provided pending))
              h in
          ground (arith, missing.0 a x, extra.0 b x, p x, q x)),
      (λ h. ground (
        arith,
        missing.1 (λ x. ground (arith, p x, q x, h x)),
        extra.1 (λ x. ground (arith, p x, q x, h x)),
      )),
    )

validate_iff :
    (provided pending : List String)
    → IsTrimmed provided
    → IsTrimmed pending
    → ((if is_empty provided
          then none
          else if is_empty pending
          then some no_tool_use
          else compare_ids provided pending)
        ≡ none)
      ↔ ((is_empty provided ≡ true)
          ⊎ ((is_empty pending ≡ false) × ((id : String) → member id provided ≡ member id pending)))
validate_iff [] pending p q = ((λ h. inl refl), (λ h. refl))
validate_iff (x ∷ xs) [] p q = ((λ h. absurd (ground arith)), (λ h. absurd (ground arith)))
validate_iff (x ∷ xs) (y ∷ ys) p q =
    let same = compare_ids_iff (x ∷ xs) (y ∷ ys) p q in
    (
      (λ h. inr (refl, same.0 h)),
      (λ h. elim h [ inl e ↦ absurd (ground arith) | inr (e, f) ↦ same.1 f ]),
    )

-- A request passes exactly if no identifiers of results are found in it, or identifiers of uses are
-- found and the two sets are the same.
pub validate_anthropic_tool_continuation_iff :
    (messages : List AnthropicMessage)
    → let provided : List String = latest_anthropic_tool_result_ids messages in
      let pending : List String = latest_anthropic_pending_tool_use_ids messages in
      (validate_anthropic_tool_continuation messages ≡ none) ↔ (
        (is_empty provided ≡ true)
        ⊎ ((is_empty pending ≡ false) × ((id : String) → member id provided ≡ member id pending)))
unfolding validate_anthropic_tool_continuation latest_anthropic_tool_result_ids
    latest_anthropic_pending_tool_use_ids
validate_anthropic_tool_continuation_iff messages =
    validate_iff _ _ (result_ids_from-IsTrimmed (newest_first messages))
      (pending_ids_from-IsTrimmed (newest_first messages) false)
