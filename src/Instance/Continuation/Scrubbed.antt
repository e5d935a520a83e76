-- ===== src/Instance/Continuation/Scrubbed.antt =====
-- The fields that the scrubbing of an item leaves alone.
use copilot_pool_gateway.Base.{
  String, ◌≡◌, refl, ap, ◌∙◌, true, false, arith, ◌==◌, eq_iff, if◌then◌else◌, Bool-cases, inl, inr,
}
use copilot_pool_gateway.Base.Json.{Json, Fields, end, field, field_of}
use copilot_pool_gateway.Instance.Continuation.{scrub_fields, scrub_content}

abbrev scrubbed : String → Json → Fields → Fields
scrubbed k v rest =
    if k == "id"
    then rest
    else if k == "content"
    then field k (scrub_content v) rest
    else field k v rest

module _ (name : String) (id : ("id" == name) ≡ false) (content : ("content" == name) ≡ false) where
  other_name : (k a : String) → (a == name) ≡ false → (k == a) ≡ true → (k == name) ≡ false
  other_name k a h e = ap (λ s. s == name) ((eq_iff k a).0 e) ∙ h

  kept_field :
      (k : String) (v : Json) (rest fs : Fields)
      → (k == name) ≡ true
      → field_of name (scrubbed k v rest) ≡ field_of name (field k v fs)
  unfolding field_of
  kept_field k v rest fs e = ground (arith, e, other_name k "id" id, other_name k "content" content)

  skipped_field :
      (k : String) (v : Json) (rest fs : Fields)
      → (k == name) ≡ false
      → field_of name rest ≡ field_of name fs
      → field_of name (scrubbed k v rest) ≡ field_of name (field k v fs)
  unfolding field_of
  skipped_field k v rest fs e h = ground (arith, e, h)

  pub field_of-scrub_fields : (fs : Fields) → field_of name (scrub_fields fs) ≡ field_of name fs
  unfolding field_of scrub_fields
  field_of-scrub_fields end = refl
  field_of-scrub_fields (field k v fs) = elim (Bool-cases (k == name)) [
    | inl e ↦ kept_field k v (scrub_fields fs) fs e
    | inr e ↦ skipped_field k v (scrub_fields fs) fs e (field_of-scrub_fields fs)
  ]
