-- ===== src/Instance/Continuation/Degraded.antt =====
-- What DegradeOrphanContinuationPayload answers for a whole body.
use copilot_pool_gateway.Base.{
  ℕ, suc, zero, String, ◌≡◌, refl, sym, ap, ◌∙◌, Bool, true, false, ◌&&◌, Option, none, some, arith,
  ◌-◌, if◌then◌else◌, eqb,
}
use copilot_pool_gateway.Base.Json.{
  Json, text, Items, nil, cons, Fields, field_of, set_field, delete_field, field_of-set_field,
  field_of-delete_field,
}
use copilot_pool_gateway.Instance.Continuation.{normalize_responses_input, scrub_items}
use copilot_pool_gateway.Instance.Continuation.Degrade.{
  Progress, count_tools, degrade_items, input_of, replaced, degrade_payload, degrade_normalized,
  orphan_degrade_max_tool_items, degrade_orphan_continuation_payload,
}
use copilot_pool_gateway.Instance.Continuation.Plain.{
  are_plain, are_plain-nil, are_plain-scrub_items,
}
use copilot_pool_gateway.Instance.Continuation.Loop.{
  are_plain-degrade_items, are_plain_of_unchanged,
}

input_replaced :
    (v : Json) (fs : Fields)
    → field_of "input" (delete_field "previous_response_id" (set_field "input" v fs)) ≡ some v
input_replaced v fs =
    field_of-delete_field "previous_response_id" "input" (set_field "input" v fs)
    ∙ field_of-set_field "input" "input" v fs

module _ (sprint : Option Json → String) (decimal : ℕ → String) where
  abbrev plain_or_none : Option Items → Bool
  plain_or_none none = true
  plain_or_none (some items) = are_plain sprint decimal items

  -- Whether the items that a body's input gives are plain; an input in error gives none.
  unfoldable pub is_plain_body : Fields → Bool
  is_plain_body fs = plain_or_none (normalize_responses_input (field_of "input" fs))

  plain_input :
      (items : Items)
      → plain_or_none (normalize_responses_input (some (input_of sprint decimal items)))
        ≡ are_plain sprint decimal items
  unfolding normalize_responses_input are_plain
  plain_input nil = refl
  plain_input (cons item items) = refl

  module _ (prints : (s : String) → sprint (some (text s)) ≡ s) where
    is_plain_body-replaced :
        (d : ℕ) (rewritten : Items) (changed : ℕ) (fs : Fields)
        → (eqb changed 0 && eqb d 0 ≡ true → is_plain_body fs ≡ true)
        → are_plain sprint decimal rewritten ≡ true
        → is_plain_body (replaced sprint decimal d (rewritten, changed) fs).0 ≡ true
    unfolding is_plain_body
    is_plain_body-replaced d rewritten changed fs same h = chosen (eqb changed 0 && eqb d 0) same
      where
        out : Fields
        out =
            delete_field "previous_response_id"
              (set_field "input" (input_of sprint decimal (scrub_items rewritten)) fs)

        chosen :
            (b : Bool)
            → (b ≡ true → is_plain_body fs ≡ true)
            → is_plain_body (if◌then◌else◌ {A = Fields × ℕ} b (fs, 0) (out, changed)).0 ≡ true
        chosen true f = f refl
        chosen false f =
            ap (λ v. plain_or_none (normalize_responses_input v)) (input_replaced _ fs)
            ∙ plain_input (scrub_items rewritten)
            ∙ are_plain-scrub_items sprint decimal rewritten h

    nothing_done :
        (d : ℕ) (p : Progress) (items : Items)
        → p.changed ≡ 0
        → eqb (degrade_items sprint decimal d p items).1 0 && eqb d 0 ≡ true
        → are_plain sprint decimal items ≡ true
    nothing_done zero p items z h =
        are_plain_of_unchanged sprint decimal p items (ground (arith, z, h))
    nothing_done (suc d) p items z h = absurd (ground arith)

    is_plain_body-degrade_payload :
        (fs : Fields) (items : Items)
        → normalize_responses_input (field_of "input" fs) ≡ some items
        → is_plain_body (degrade_payload sprint decimal items fs).0 ≡ true
    unfolding degrade_payload is_plain_body
    is_plain_body-degrade_payload fs nil e = ap plain_or_none e ∙ are_plain-nil sprint decimal
    is_plain_body-degrade_payload fs (cons item more) e =
        let items = cons item more in
        let d = count_tools sprint decimal items - orphan_degrade_max_tool_items in
        let p : Progress = record { tools_dropped = 0; marker_emitted = false; changed = 0 } in
        let done = degrade_items sprint decimal d p items in
        is_plain_body-replaced d done.0 done.1 fs
          (λ h. ap plain_or_none e ∙ nothing_done d p items refl h)
          (are_plain-degrade_items sprint decimal prints d p items)

    abbrev body_of : Option (Fields × ℕ) → Bool
    body_of none = true
    body_of (some (fs, changed)) = is_plain_body fs

    normalized_plain :
        (fs out : Fields) (changed : ℕ) (input : Option Items)
        → normalize_responses_input (field_of "input" fs) ≡ input
        → degrade_normalized sprint decimal fs input ≡ some (out, changed)
        → is_plain_body out ≡ true
    normalized_plain fs out changed none e h = sym (ap body_of h)
    normalized_plain fs out changed (some items) e h =
        sym (ap body_of h) ∙ is_plain_body-degrade_payload fs items e

    -- Where a text is printed as itself, a body that is degraded without an error has plain items
    -- only: no item of its input is of the type of a function call, of an output of one or of
    -- reasoning, also where the body was left as it came.
    pub degrade_orphan_continuation_payload-plain :
        (fs out : Fields) (changed : ℕ)
        → degrade_orphan_continuation_payload sprint decimal fs ≡ some (out, changed)
        → is_plain_body out ≡ true
    unfolding degrade_orphan_continuation_payload
    degrade_orphan_continuation_payload-plain fs out changed e =
        normalized_plain fs out changed (normalize_responses_input (field_of "input" fs)) refl e
