-- ===== src/Handler/CallIds/Canonical.antt =====
-- What the rewriting of a body does to the identifiers that are read off it.
use copilot_pool_gateway.Base.{
  String, ◌≡◌, refl, sym, ap, ◌∙◌, Bool, true, false, not, ◌||◌, ◌&&◌, List, [], ◌∷◌, Option, none,
  some, arith, ◌==◌, eq_iff, if◌then◌else◌, trim, to_lower, trim_idem, has_prefix, length_bytes,
  take_bytes, drop_text, append_text, has_prefix-append_text, trim_not_blank, map, ◌⊎◌, Bool-cases,
  inl, inr, is_space,
}
use copilot_pool_gateway.Base.Json.{
  Json, null, boolean, number, text, array, object, Items, nil, cons, Fields, field_of, set_field,
  text_field, text_or_empty, field_of-set_field,
}
use copilot_pool_gateway.Instance.Turns.{unique_trimmed}
use copilot_pool_gateway.Handler.CallIds.{
  canonicalize_copilot_call_id, is_call_item, is_output_item, canonical_id, rewrite_fields,
  rewrite_item, rewrite_items, rewrite_input, rewrite_function_call_output_call_ids, collect_item,
  collect_items, collect_input, output_ids, extract_response_function_call_output_ids,
}

pub canonicalize_copilot_call_id_idem :
    (id : String)
    → canonicalize_copilot_call_id (canonicalize_copilot_call_id id)
      ≡ canonicalize_copilot_call_id id
unfolding canonicalize_copilot_call_id
canonicalize_copilot_call_id_idem id =
    ground (arith, has_prefix-append_text "call_" (take_bytes 24 (drop_text 4 id)))

trim-call : (s : String) → (trim (append_text "call_" s) == "") ≡ false
unfolding append_text is_space
trim-call s = trim_not_blank "c" _ refl

canonicalize_copilot_call_id-cases :
    (id : String)
    → (canonicalize_copilot_call_id id ≡ id)
      ⊎ (canonicalize_copilot_call_id id ≡ append_text "call_" (take_bytes 24 (drop_text 4 id)))
unfolding canonicalize_copilot_call_id
canonicalize_copilot_call_id-cases id = ground arith

canonicalize_blank : canonicalize_copilot_call_id "" ≡ ""
unfolding canonicalize_copilot_call_id has_prefix length_bytes
canonicalize_blank = refl

-- The canonical form of an identifier is blank where the identifier is.
trim-canonical_id : (id : String) → (trim (canonical_id id) == "") ≡ (trim id == "")
unfolding trim
trim-canonical_id id = elim (Bool-cases (trim id == "")) [
  | inl e ↦
      ap (λ s. trim (canonicalize_copilot_call_id s) == "") ((eq_iff (trim id) "").0 e)
      ∙ ap (λ s. trim s == "") canonicalize_blank
      ∙ sym e
  | inr e ↦ elim (canonicalize_copilot_call_id-cases (trim id)) [
    | inl f ↦ ap (λ s. trim s == "") f ∙ ap (λ s. s == "") (trim_idem id)
    | inr f ↦ ap (λ s. trim s == "") f ∙ trim-call (take_bytes 24 (drop_text 4 (trim id))) ∙ sym e
  ]
]

abbrev put_id : Bool → String → List String → List String
put_id output id ids = if output && not (trim id == "") then id ∷ ids else ids

map_if :
    (b : Bool) (id : String) (ids : List String)
    → (if b then canonical_id id ∷ map canonical_id ids else map canonical_id ids)
      ≡ map canonical_id (if b then id ∷ ids else ids)
map_if true id ids = refl
map_if false id ids = refl

map-put_id :
    (output : Bool) (id : String) (ids : List String)
    → put_id output (canonical_id id) (map canonical_id ids)
      ≡ map canonical_id (put_id output id ids)
map-put_id output id ids =
    ap
      (λ b.
        if output && not b then canonical_id id ∷ map canonical_id ids else map canonical_id ids)
      (trim-canonical_id id)
    ∙ map_if _ id ids

module _ (fs : Fields) where
  text_field-type : (v : Json) → text_field "type" (set_field "call_id" v fs) ≡ text_field "type" fs
  text_field-type v = ap text_or_empty (field_of-set_field "call_id" "type" v fs)

  text_field-call_id : (s : String) → text_field "call_id" (set_field "call_id" (text s) fs) ≡ s
  text_field-call_id s = ap text_or_empty (field_of-set_field "call_id" "call_id" (text s) fs)

  abbrev set_id : Bool → Fields
  set_id b =
      if b then set_field "call_id" (text (canonical_id (text_field "call_id" fs))) fs else fs

  text_field-type-set_id : (b : Bool) → text_field "type" (set_id b) ≡ text_field "type" fs
  text_field-type-set_id true = text_field-type _
  text_field-type-set_id false = refl

  text_field-call_id-set_id :
      (b same : Bool)
      → b ≡ true
      → (same ≡ true → canonical_id (text_field "call_id" fs) ≡ text_field "call_id" fs)
      → text_field "call_id" (set_id (b && not same)) ≡ canonical_id (text_field "call_id" fs)
  text_field-call_id-set_id true false h same = text_field-call_id _
  text_field-call_id-set_id true true h same = sym (same refl)
  text_field-call_id-set_id false _ h same = ground arith

  is_output_item-is_call_item : is_output_item fs ≡ true → is_call_item fs ≡ true
  is_output_item-is_call_item h = ground arith

  is_output_item-rewrite_fields : is_output_item (rewrite_fields fs) ≡ is_output_item fs
  is_output_item-rewrite_fields =
      ap
        (λ t.
          trim (to_lower t) == "function_call_output"
          || trim (to_lower t) == "custom_tool_call_output")
        (text_field-type-set_id _)

  call_id-rewrite_fields :
      is_output_item fs ≡ true
      → text_field "call_id" (rewrite_fields fs) ≡ canonical_id (text_field "call_id" fs)
  call_id-rewrite_fields h =
      text_field-call_id-set_id (is_call_item fs)
        (canonical_id (text_field "call_id" fs) == text_field "call_id" fs)
        (is_output_item-is_call_item h) ((eq_iff _ _).0)

  collect-rewrite_fields :
      (ids : List String)
      → collect_item (object (rewrite_fields fs)) (map canonical_id ids)
        ≡ map canonical_id (collect_item (object fs) ids)
  collect-rewrite_fields ids =
      ap (λ o. put_id o (text_field "call_id" (rewrite_fields fs)) (map canonical_id ids))
        is_output_item-rewrite_fields
      ∙ elim (Bool-cases (is_output_item fs)) [
        | inl h ↦
            ap (λ id. put_id (is_output_item fs) id (map canonical_id ids))
              (call_id-rewrite_fields h)
            ∙ map-put_id (is_output_item fs) (text_field "call_id" fs) ids
        | inr h ↦
            ap (λ o. put_id o (text_field "call_id" (rewrite_fields fs)) (map canonical_id ids)) h
            ∙ sym (ap (λ o. map canonical_id (put_id o (text_field "call_id" fs) ids)) h)
      ]

collect_item-rewrite_item :
    (item : Json) (ids : List String)
    → collect_item (rewrite_item item) (map canonical_id ids)
      ≡ map canonical_id (collect_item item ids)
collect_item-rewrite_item (object fs) ids = collect-rewrite_fields fs ids
collect_item-rewrite_item null ids = refl
collect_item-rewrite_item (boolean b) ids = refl
collect_item-rewrite_item (number n) ids = refl
collect_item-rewrite_item (text s) ids = refl
collect_item-rewrite_item (array items) ids = refl

collect_items-rewrite_items :
    (items : Items) → collect_items (rewrite_items items) ≡ map canonical_id (collect_items items)
unfolding collect_items rewrite_items
collect_items-rewrite_items nil = refl
collect_items-rewrite_items (cons item items) =
    ap (collect_item (rewrite_item item)) (collect_items-rewrite_items items)
    ∙ collect_item-rewrite_item item (collect_items items)

collect_input-rewrite_input :
    (fs : Fields) (input : Option Json)
    → field_of "input" fs ≡ input
    → collect_input (field_of "input" (rewrite_input input fs))
      ≡ map canonical_id (collect_input input)
collect_input-rewrite_input fs (some (array items)) e =
    ap collect_input (field_of-set_field "input" "input" (array (rewrite_items items)) fs)
    ∙ collect_items-rewrite_items items
collect_input-rewrite_input fs (some (object item)) e =
    ap collect_input (field_of-set_field "input" "input" (object (rewrite_fields item)) fs)
    ∙ collect-rewrite_fields item []
collect_input-rewrite_input fs none e = ap collect_input e
collect_input-rewrite_input fs (some null) e = ap collect_input e
collect_input-rewrite_input fs (some (boolean b)) e = ap collect_input e
collect_input-rewrite_input fs (some (number n)) e = ap collect_input e
collect_input-rewrite_input fs (some (text s)) e = ap collect_input e

-- The identifiers read off a rewritten body are the canonical forms of the identifiers of the body
-- itself, trimmed and with the repetitions left out, for every body.
pub extract-rewrite_function_call_output_call_ids :
    (body : Json)
    → extract_response_function_call_output_ids (rewrite_function_call_output_call_ids body)
      ≡ unique_trimmed (map canonical_id (output_ids body))
unfolding extract_response_function_call_output_ids rewrite_function_call_output_call_ids
extract-rewrite_function_call_output_call_ids (object fs) =
    ap unique_trimmed (collect_input-rewrite_input fs (field_of "input" fs) refl)
extract-rewrite_function_call_output_call_ids null = refl
extract-rewrite_function_call_output_call_ids (boolean b) = refl
extract-rewrite_function_call_output_call_ids (number n) = refl
extract-rewrite_function_call_output_call_ids (text s) = refl
extract-rewrite_function_call_output_call_ids (array items) = refl
