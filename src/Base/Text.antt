-- ===== src/Base/Text.antt =====
-- Go's `strings.TrimSpace` and `strings.ToLower`.
mod Letters
mod Decimal
mod Prefix
mod Bytes
unfoldable pub use Decimal.{decimal}
unfoldable pub use Prefix.*
unfoldable pub use Bytes.*
unfoldable pub use Letters.{is_space, lower_char}
use Prim.Native.Char.{Char}
use Prim.Native.String.{String, [], ◌∷◌}
use mathlib.Core.Path.{◌≡◌, refl, sym, ap, ◌∙◌}
use mathlib.Core.Logic.{inl, inr}
use native.Mathlib.Omega.{arith}
use text.Mathlib.Text.{◌==◌}
use text.Mathlib.TextEquality.{eq_iff}
use mathlib.Core.Bool.{Bool, true, false}
use copilot_pool_gateway.Base.Tests.{if◌then◌else◌, Bool-cases}
use Letters.{lower_char_idem, is_space-lower_char}

unfoldable pub trim_left : String → String
trim_left [] = []
trim_left (c ∷ s) = if is_space c then trim_left s else c ∷ s

-- One step of `trim_right`: a space goes where nothing is left behind it.
push_back : Char → String → String
push_back c [] = if is_space c then [] else c ∷ []
push_back c (d ∷ s) = c ∷ d ∷ s

unfoldable pub trim_right : String → String
unfolding push_back
trim_right [] = []
trim_right (c ∷ s) = push_back c (trim_right s)

-- strings.TrimSpace
unfoldable pub trim : String → String
unfolding trim_left trim_right
trim s = trim_right (trim_left s)

NoLead : String → Type 0
NoLead [] = Unit
NoLead (c ∷ s) = is_space c ≡ false

NoLead-trim_left : (s : String) → NoLead (trim_left s)
unfolding NoLead trim_left
NoLead-trim_left [] = tt
NoLead-trim_left (c ∷ s) = elim (Bool-cases (is_space c)) [
  | inl e ↦ rw e (NoLead-trim_left s)
  | inr e ↦ rw e e
]

NoLead-push_back : (c : Char) (s : String) → is_space c ≡ false → NoLead (push_back c s)
unfolding NoLead push_back
NoLead-push_back c [] h = rw h h
NoLead-push_back c (d ∷ s) h = h

NoLead-trim_right : (s : String) → NoLead s → NoLead (trim_right s)
unfolding NoLead trim_right
NoLead-trim_right [] h = tt
NoLead-trim_right (c ∷ s) h = NoLead-push_back c (trim_right s) h

trim_left_of_NoLead : (s : String) → NoLead s → trim_left s ≡ s
unfolding NoLead trim_left
trim_left_of_NoLead [] h = refl
trim_left_of_NoLead (c ∷ s) h = rw h

trim_right-push_back :
    (c : Char) (s : String) → trim_right s ≡ s → trim_right (push_back c s) ≡ push_back c s
unfolding trim_right
trim_right-push_back c [] h = elim (Bool-cases (is_space c)) [ inl e ↦ rw e | inr e ↦ rw (e, e) ]
trim_right-push_back c (d ∷ s) h = rw h

trim_right_idem : (s : String) → trim_right (trim_right s) ≡ trim_right s
unfolding trim_right
trim_right_idem [] = refl
trim_right_idem (c ∷ s) = trim_right-push_back c (trim_right s) (trim_right_idem s)

-- Trimming what is trimmed changes nothing.
pub trim_idem : (s : String) → trim (trim s) ≡ trim s
unfolding trim
trim_idem s =
    ap trim_right (trim_left_of_NoLead _ (NoLead-trim_right _ (NoLead-trim_left s)))
    ∙ trim_right_idem (trim_left s)

-- strings.ToLower, on ASCII
unfoldable pub to_lower : String → String
to_lower [] = []
to_lower (c ∷ s) = lower_char c ∷ to_lower s

pub to_lower_idem : (s : String) → to_lower (to_lower s) ≡ to_lower s
unfolding to_lower
to_lower_idem [] = refl
to_lower_idem (c ∷ s) = rw (lower_char_idem c, to_lower_idem s)

to_lower-trim_left : (s : String) → to_lower (trim_left s) ≡ trim_left (to_lower s)
unfolding to_lower trim_left
to_lower-trim_left [] = refl
to_lower-trim_left (c ∷ s) = elim (Bool-cases (is_space c)) [
  | inl e ↦ rw (is_space-lower_char c, e) (to_lower-trim_left s)
  | inr e ↦ rw (is_space-lower_char c, e)
]

to_lower-push_back :
    (c : Char) (s : String) → to_lower (push_back c s) ≡ push_back (lower_char c) (to_lower s)
unfolding to_lower push_back
to_lower-push_back c [] = elim (Bool-cases (is_space c)) [
  | inl e ↦ rw (is_space-lower_char c, e)
  | inr e ↦ rw (is_space-lower_char c, e)
]
to_lower-push_back c (d ∷ s) = refl

to_lower-trim_right : (s : String) → to_lower (trim_right s) ≡ trim_right (to_lower s)
unfolding to_lower trim_right
to_lower-trim_right [] = refl
to_lower-trim_right (c ∷ s) = rw (to_lower-push_back c (trim_right s), to_lower-trim_right s)

pub to_lower-trim : (s : String) → to_lower (trim s) ≡ trim (to_lower s)
unfolding trim
to_lower-trim s = rw (to_lower-trim_right (trim_left s), to_lower-trim_left s)

trim_test : trim "  ab c " ≡ "ab c"
unfolding trim is_space
trim_test = refl

is_blank : String → Bool
is_blank [] = true
is_blank (c ∷ s) = false

is_blank-push_back : (c : Char) (s : String) → is_space c ≡ false → is_blank (push_back c s) ≡ false
unfolding is_blank push_back
is_blank-push_back c [] h = rw h refl
is_blank-push_back c (d ∷ s) h = refl

false_of : (b : Bool) → (b ≡ true → true ≡ false) → b ≡ false
false_of true h = h refl
false_of false h = refl

not_empty : (s : String) → is_blank s ≡ false → (s == "") ≡ false
unfolding is_blank
not_empty s h = false_of (s == "") (λ e. sym (ap is_blank ((eq_iff s "").0 e)) ∙ h)

-- A text that does not begin with a space is not blank.
pub trim_not_blank : (c : Char) (s : String) → is_space c ≡ false → (trim (c ∷ s) == "") ≡ false
unfolding trim trim_left trim_right
trim_not_blank c s h = rw h (not_empty _ (is_blank-push_back c (trim_right s) h))
