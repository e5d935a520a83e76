-- ===== src/Base/Text/Decimal.antt =====
-- `strconv.Itoa` and `fmt`'s `%d` on numbers that are not negative.
use Prim.Native.Nat.{ℕ, zero, suc, ◌/◌, ◌%◌}
use Prim.Native.Char.{Char}
use Prim.Native.String.{String, ◌∷◌ as push}
use mathlib.Core.Path.{◌≡◌, refl}
use mathlib.Core.List.{[], ◌∷◌}
use copilot_pool_gateway.Base.Tests.{ltb, if◌then◌else◌}
use copilot_pool_gateway.Base.Lists.{get_or}

digit : ℕ → Char
digit n = get_or ("0" ∷ "1" ∷ "2" ∷ "3" ∷ "4" ∷ "5" ∷ "6" ∷ "7" ∷ "8" ∷ "9" ∷ []) n "0"

-- The digits of `n` in front of `text`; a number has fewer digits than its successor counts.
digits : ℕ → ℕ → String → String
digits zero n text = text
digits (suc fuel) n text =
    let rest = digits fuel (n / 10) (push (digit (n % 10)) text) in
    if ltb n 10 then push (digit n) text else rest

unfoldable pub decimal : ℕ → String
unfolding digits digit
decimal n = digits (suc n) n ""

decimal_test : decimal 9107 ≡ "9107"
unfolding decimal
decimal_test = refl
