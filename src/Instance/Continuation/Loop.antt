-- ===== src/Instance/Continuation/Loop.antt =====
-- What the loop of DegradeOrphanContinuationPayload makes of a body's items.
use copilot_pool_gateway.Base.{
  ℕ, ◌≤◌, suc, String, ◌≡◌, refl, ap, Bool, true, false, not, ◌||◌, ◌&&◌, Option, some, arith, ◌==◌,
  if◌then◌else◌, ltb, trim, to_lower, lower_char, is_space,
}
use copilot_pool_gateway.Base.Json.{
  Json, null, boolean, number, text, array, object, Items, nil, cons, Fields, field_of,
}
use copilot_pool_gateway.Instance.Continuation.Degrade.{
  Progress, item_type, is_tool, call_message, output_message, marker_message, degraded_item,
  with_marker, after_kept, degrade_items,
}
use copilot_pool_gateway.Instance.Continuation.Plain.{
  is_plain_type, is_plain, are_plain, are_plain-nil, are_plain-cons,
}

module _ (sprint : Option Json → String) (decimal : ℕ → String) where
  changed-if : (b : Bool) (x y : Items × ℕ) (n : ℕ) → n ≤ x.1 → n ≤ y.1 → n ≤ (if b then x else y).1
  changed-if true x y n f g = f
  changed-if false x y n f g = g

  le_if : (b : Bool) (n m : ℕ) → (if b then suc n else n) ≤ m → n ≤ m
  le_if true n m h = ground arith
  le_if false n m h = h

  -- The loop never lowers the count of changed items.
  changed-degrade_items :
      (d : ℕ) (p : Progress) (items : Items)
      → p.changed ≤ (degrade_items sprint decimal d p items).1
  unfolding degrade_items
  changed-degrade_items d p nil = ground arith
  changed-degrade_items d p (cons (object fs) items) =
      changed-if (item_type sprint decimal fs == "reasoning") _ _ p.changed
        (ground (arith, changed-degrade_items d (record p { changed = suc p.changed }) items))
        (changed-if _ _ _ p.changed
          (changed-degrade_items d (record p { tools_dropped = suc p.tools_dropped }) items)
          (le_if (is_tool sprint decimal (item_type sprint decimal fs)) p.changed _
            (changed-degrade_items d _ items)))
  changed-degrade_items d p (cons null items) = changed-degrade_items d p items
  changed-degrade_items d p (cons (boolean b) items) = changed-degrade_items d p items
  changed-degrade_items d p (cons (number n) items) = changed-degrade_items d p items
  changed-degrade_items d p (cons (text s) items) = changed-degrade_items d p items
  changed-degrade_items d p (cons (array more) items) = changed-degrade_items d p items

  module _ (prints : (s : String) → sprint (some (text s)) ≡ s) where
    message_plain :
        is_plain_type sprint decimal (trim (to_lower (sprint (some (text "message"))))) ≡ true
    unfolding is_plain_type trim to_lower is_space lower_char
    message_plain = ap (λ s. is_plain_type sprint decimal (trim (to_lower s))) (prints "message")

    chosen_plain :
        (a b : Bool) (x y z : Json)
        → is_plain sprint decimal x ≡ true
        → is_plain sprint decimal y ≡ true
        → (a || b ≡ false → is_plain sprint decimal z ≡ true)
        → is_plain sprint decimal (if a then x else if b then y else z) ≡ true
    chosen_plain true b x y z f g h = f
    chosen_plain false true x y z f g h = g
    chosen_plain false false x y z f g h = h refl

    is_plain-degraded_item :
        (fs : Fields)
        → (item_type sprint decimal fs == "reasoning") ≡ false
        → is_plain sprint decimal (degraded_item sprint decimal fs) ≡ true
    unfolding degraded_item call_message output_message is_plain_type field_of
    is_plain-degraded_item fs h =
        chosen_plain (item_type sprint decimal fs == "function_call")
          (item_type sprint decimal fs == "function_call_output") (call_message sprint decimal fs)
          (output_message sprint decimal fs) (object fs) message_plain message_plain
          (λ e. rw (e, h) refl)

    if_plain :
        (b : Bool) (x y : Items × ℕ)
        → are_plain sprint decimal x.0 ≡ true
        → (b ≡ false → are_plain sprint decimal y.0 ≡ true)
        → are_plain sprint decimal (if b then x else y).0 ≡ true
    if_plain true x y f g = f
    if_plain false x y f g = g refl

    are_plain-with_marker :
        (d : ℕ) (tool emitted : Bool) (items : Items)
        → are_plain sprint decimal items ≡ true
        → are_plain sprint decimal (with_marker sprint decimal d tool emitted items) ≡ true
    unfolding are_plain marker_message field_of
    are_plain-with_marker d tool emitted items h =
        if_item (tool && (ltb 0 d && not emitted)) (marker_message sprint decimal d) items
          message_plain h
      where
        if_item :
            (b : Bool) (item : Json) (items : Items)
            → is_plain sprint decimal item ≡ true
            → are_plain sprint decimal items ≡ true
            → are_plain sprint decimal (if b then cons item items else items) ≡ true
        if_item true item items g h = rw (g, h) refl
        if_item false item items g h = h

    -- Every item that the loop gives is plain.
    pub are_plain-degrade_items :
        (d : ℕ) (p : Progress) (items : Items)
        → are_plain sprint decimal (degrade_items sprint decimal d p items).0 ≡ true
    unfolding degrade_items
    are_plain-degrade_items d p nil = are_plain-nil sprint decimal
    are_plain-degrade_items d p (cons (object fs) items) =
        if_plain (item_type sprint decimal fs == "reasoning") _ _
          (are_plain-degrade_items d (record p { changed = suc p.changed }) items)
          (λ r.
            let tool = is_tool sprint decimal (item_type sprint decimal fs) in
            let rest = degrade_items sprint decimal d (after_kept sprint decimal d tool p) items in
            if_plain (tool && ltb p.tools_dropped d) _
              (
                with_marker sprint decimal d tool p.marker_emitted
                    (cons (degraded_item sprint decimal fs) rest.0),
                rest.1,
              )
              (are_plain-degrade_items d (record p { tools_dropped = suc p.tools_dropped }) items)
              (λ t.
                are_plain-with_marker d tool p.marker_emitted
                  (cons (degraded_item sprint decimal fs) rest.0)
                  (are_plain-cons sprint decimal (degraded_item sprint decimal fs) rest.0
                    (is_plain-degraded_item fs r)
                    (are_plain-degrade_items d (after_kept sprint decimal d tool p) items))))
    are_plain-degrade_items d p (cons null items) =
        are_plain-cons sprint decimal null _ refl (are_plain-degrade_items d p items)
    are_plain-degrade_items d p (cons (boolean b) items) =
        are_plain-cons sprint decimal (boolean b) _ refl (are_plain-degrade_items d p items)
    are_plain-degrade_items d p (cons (number n) items) =
        are_plain-cons sprint decimal (number n) _ refl (are_plain-degrade_items d p items)
    are_plain-degrade_items d p (cons (text s) items) =
        are_plain-cons sprint decimal (text s) _ refl (are_plain-degrade_items d p items)
    are_plain-degrade_items d p (cons (array more) items) =
        are_plain-cons sprint decimal (array more) _ refl (are_plain-degrade_items d p items)

  if_changed :
      (b : Bool) (x y : Items × ℕ) (n : ℕ)
      → (if b then x else y).1 ≤ n
      → suc n ≤ x.1
      → (b ≡ false) × (y.1 ≤ n)
  if_changed true x y n h f = absurd (ground arith)
  if_changed false x y n h f = (refl, h)

  if_false : (b : Bool) (x y : Items × ℕ) (n : ℕ) → b ≡ false → (if b then x else y).1 ≤ n → y.1 ≤ n
  if_false true x y n e h = absurd (ground arith)
  if_false false x y n e h = h

  not_tool : (tool : Bool) (n m : ℕ) → (if tool then suc n else n) ≤ m → m ≤ n → tool ≡ false
  not_tool true n m f g = absurd (ground arith)
  not_tool false n m f g = refl

  le_if_suc : (tool : Bool) (n m : ℕ) → m ≤ n → m ≤ (if tool then suc n else n)
  le_if_suc true n m h = ground arith
  le_if_suc false n m h = h

  plain_type :
      (kind : String)
      → is_tool sprint decimal kind ≡ false
      → (kind == "reasoning") ≡ false
      → is_plain_type sprint decimal kind ≡ true
  unfolding is_plain_type
  plain_type kind g h = rw (g, h) refl

  none_dropped : (tool : Bool) (n : ℕ) → (tool && ltb n 0) ≡ false
  none_dropped tool n = ground arith

  -- Where the loop drops nothing and counts no change, it has met plain items only.
  pub are_plain_of_unchanged :
      (p : Progress) (items : Items)
      → (degrade_items sprint decimal 0 p items).1 ≤ p.changed
      → are_plain sprint decimal items ≡ true
  unfolding degrade_items
  are_plain_of_unchanged p nil h = are_plain-nil sprint decimal
  are_plain_of_unchanged p (cons (object fs) items) h =
      let kind = item_type sprint decimal fs in
      let tool = is_tool sprint decimal kind in
      let next = after_kept sprint decimal 0 tool p in
      let (r, first) =
        if_changed (kind == "reasoning") _ _ p.changed h
          (changed-degrade_items 0 (record p { changed = suc p.changed }) items) in
      let second =
        if_false (tool && ltb p.tools_dropped 0) _ _ p.changed (none_dropped tool p.tools_dropped)
          first in
      let t = not_tool tool p.changed _ (changed-degrade_items 0 next items) second in
      are_plain-cons sprint decimal (object fs) items (plain_type kind t r)
        (are_plain_of_unchanged next items (le_if_suc tool p.changed _ second))
  are_plain_of_unchanged p (cons null items) h =
      are_plain-cons sprint decimal null items refl (are_plain_of_unchanged p items h)
  are_plain_of_unchanged p (cons (boolean b) items) h =
      are_plain-cons sprint decimal (boolean b) items refl (are_plain_of_unchanged p items h)
  are_plain_of_unchanged p (cons (number n) items) h =
      are_plain-cons sprint decimal (number n) items refl (are_plain_of_unchanged p items h)
  are_plain_of_unchanged p (cons (text s) items) h =
      are_plain-cons sprint decimal (text s) items refl (are_plain_of_unchanged p items h)
  are_plain_of_unchanged p (cons (array more) items) h =
      are_plain-cons sprint decimal (array more) items refl (are_plain_of_unchanged p items h)
