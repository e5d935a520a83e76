-- ===== src/Instance/Continuation/Plain.antt =====
-- What DegradeOrphanContinuationPayload leaves of a body's items.
use copilot_pool_gateway.Base.{
  ℕ, String, ◌≡◌, refl, ap, ◌∙◌, Bool, true, false, not, ◌&&◌, Option, none, some, arith, ◌==◌,
  if◌then◌else◌, trim, to_lower,
}
use copilot_pool_gateway.Base.Json.{
  Json, null, boolean, number, text, array, object, Items, nil, cons, Fields,
}
use copilot_pool_gateway.Instance.Continuation.{
  scrub_item, scrub_fields, scrub_items, put_item, is_reference, normal_type,
}
use copilot_pool_gateway.Instance.Continuation.Scrubbed.{field_of-scrub_fields}
use copilot_pool_gateway.Instance.Continuation.Degrade.{item_type, is_tool}

module _ (sprint : Option Json → String) (decimal : ℕ → String) where
  -- Whether an item is neither a tool item nor reasoning.
  unfoldable pub is_plain_type : String → Bool
  is_plain_type kind = not (is_tool sprint decimal kind) && not (kind == "reasoning")

  abbrev pub is_plain : Json → Bool
  is_plain (object fs) = is_plain_type (item_type sprint decimal fs)
  is_plain j = true

  unfoldable pub are_plain : Items → Bool
  unfolding is_plain_type
  are_plain nil = true
  are_plain (cons item items) = is_plain item && are_plain items

  pub is_plain-scrub_fields :
      (fs : Fields) → is_plain (object (scrub_fields fs)) ≡ is_plain (object fs)
  is_plain-scrub_fields fs =
      ap (λ v. is_plain_type (trim (to_lower (sprint v))))
        (field_of-scrub_fields "type" refl refl fs)

  pub are_plain-nil : are_plain nil ≡ true
  unfolding are_plain
  are_plain-nil = refl

  pub are_plain-cons :
      (item : Json) (items : Items)
      → is_plain item ≡ true
      → are_plain items ≡ true
      → are_plain (cons item items) ≡ true
  unfolding are_plain
  are_plain-cons item items g h = rw (g, h) refl

  are_plain-put_item :
      (dropped : Bool) (item : Json) (items : Items)
      → is_plain item ≡ true
      → are_plain items ≡ true
      → are_plain (put_item (if dropped then none else some item) items) ≡ true
  unfolding are_plain
  are_plain-put_item true item items g h = h
  are_plain-put_item false item items g h = rw (g, h) refl

  pub are_plain-scrub_items :
      (items : Items) → are_plain items ≡ true → are_plain (scrub_items items) ≡ true
  unfolding are_plain scrub_item
  are_plain-scrub_items nil h = refl
  are_plain-scrub_items (cons (object fs) items) h =
      are_plain-put_item (is_reference (normal_type fs)) (object (scrub_fields fs))
        (scrub_items items) (is_plain-scrub_fields fs ∙ ground arith)
        (are_plain-scrub_items items (ground arith))
  are_plain-scrub_items (cons null items) h = are_plain-scrub_items items h
  are_plain-scrub_items (cons (boolean b) items) h = are_plain-scrub_items items h
  are_plain-scrub_items (cons (number n) items) h = are_plain-scrub_items items h
  are_plain-scrub_items (cons (text s) items) h = are_plain-scrub_items items h
  are_plain-scrub_items (cons (array more) items) h = are_plain-scrub_items items h
