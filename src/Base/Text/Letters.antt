-- ===== src/Base/Text/Letters.antt =====
-- One character at a time: Unicode's white space, and lower case on ASCII. Other letters stay as
-- they are.
use Prim.Native.Nat.{ℕ, ◌-◌, ◌≤◌, ◌<◌, suc, zero}
use Prim.Native.Char.{Char, code}
use mathlib.Core.Path.{◌≡◌, refl, ap}
use mathlib.Core.Logic.{◌⊎◌, inl, inr}
use mathlib.Core.Bool.{Bool, true, false, ◌&&◌, ◌||◌}
use mathlib.Core.List.{List, [], ◌∷◌}
use native.Mathlib.Omega.{arith}
use copilot_pool_gateway.Base.Tests.{leb, eqb, if◌then◌else◌, Bool-cases}
use copilot_pool_gateway.Base.Lists.{get_or, All, length}

-- unicode.IsSpace
is_space_code : ℕ → Bool
is_space_code n =
    (leb 9 n && leb n 13)
    || eqb n 32
    || eqb n 0x85
    || eqb n 0xa0
    || eqb n 0x1680
    || (leb 0x2000 n && leb n 0x200a)
    || eqb n 0x2028
    || eqb n 0x2029
    || eqb n 0x202f
    || eqb n 0x205f
    || eqb n 0x3000

unfoldable pub is_space : Char → Bool
unfolding is_space_code
is_space c = is_space_code (code c)

-- The letters that ASCII upper case becomes, in order.
alphabet : List Char
alphabet =
    "a" ∷ "b" ∷ "c" ∷ "d" ∷ "e" ∷ "f" ∷ "g" ∷ "h" ∷ "i" ∷ "j" ∷ "k" ∷ "l" ∷ "m" ∷ "n" ∷ "o" ∷ "p"
    ∷ "q" ∷ "r" ∷ "s" ∷ "t" ∷ "u" ∷ "v" ∷ "w" ∷ "x" ∷ "y" ∷ "z" ∷ []

unfoldable pub lower_char : Char → Char
unfolding alphabet
lower_char c = if leb 65 (code c) && leb (code c) 90 then get_or alphabet (code c - 65) c else c

IsSmall : Char → Type 0
IsSmall c = (97 ≤ code c) × (code c ≤ 122)

alphabet-IsSmall : All IsSmall alphabet
unfolding alphabet IsSmall
alphabet-IsSmall = omega arith

get_or-All :
    (xs : List Char) (i : ℕ) (d : Char) → All IsSmall xs → i < length xs → IsSmall (get_or xs i d)
get_or-All [] i d h k = elim k [ ]
get_or-All (x ∷ xs) zero d h k = h.0
get_or-All (x ∷ xs) (suc i) d h k = get_or-All xs i d h.1 (omega arith)

abbrev is_upper : Char → Bool
is_upper c = leb 65 (code c) && leb (code c) 90

lower_char-cases : (c : Char) → IsSmall (lower_char c) ⊎ (lower_char c ≡ c)
unfolding lower_char
lower_char-cases c = elim (Bool-cases (is_upper c)) [
  | inl e ↦ rw e (inl (get_or-All alphabet (code c - 65) c alphabet-IsSmall (ground arith)))
  | inr e ↦ rw e (inr refl)
]

lower_char_of_IsSmall : (c : Char) → IsSmall c → lower_char c ≡ c
unfolding lower_char IsSmall
lower_char_of_IsSmall c h = let e : is_upper c ≡ false = ground arith in rw e

pub lower_char_idem : (c : Char) → lower_char (lower_char c) ≡ lower_char c
lower_char_idem c = elim (lower_char-cases c) [
  | inl h ↦ lower_char_of_IsSmall _ h
  | inr e ↦ ap lower_char e
]

is_space_of_IsSmall : (c : Char) → IsSmall c → is_space c ≡ false
unfolding is_space IsSmall
is_space_of_IsSmall c h = ground arith

is_space_of_upper : (c : Char) → is_upper c ≡ true → is_space c ≡ false
unfolding is_space
is_space_of_upper c h = ground arith

pub is_space-lower_char : (c : Char) → is_space (lower_char c) ≡ is_space c
unfolding lower_char
is_space-lower_char c = elim (Bool-cases (is_upper c)) [
  | inl e ↦
      rw (e, is_space_of_upper c e)
        (is_space_of_IsSmall _
          (get_or-All alphabet (code c - 65) c alphabet-IsSmall (ground arith)))
  | inr e ↦ rw e
]
