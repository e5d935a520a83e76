-- ===== src/Base/Text/Prefix.antt =====
-- Go's `strings.HasPrefix`, `strings.TrimPrefix`, `strings.HasSuffix` and `strings.Contains`, and the
-- slice behind a prefix. Lengths are in characters: the prefixes that are dropped are ASCII.
use Prim.Native.Nat.{ℕ, zero, suc}
use Prim.Native.Char.{code}
use Prim.Native.String.{String, [], ◌∷◌}
use mathlib.Core.Path.{◌≡◌, refl}
use mathlib.Core.Bool.{Bool, true, false, ◌&&◌, ◌||◌}
use native.Mathlib.Omega.{arith}
use text.Mathlib.Text.{◌==◌}
use copilot_pool_gateway.Base.Tests.{eqb, if◌then◌else◌}

-- strings.HasPrefix, the prefix first
unfoldable pub has_prefix : String → String → Bool
has_prefix [] s = true
has_prefix (c ∷ p) [] = false
has_prefix (c ∷ p) (d ∷ s) = eqb (code c) (code d) && has_prefix p s

-- `s[n:]`, where the first `n` characters are ASCII
unfoldable pub drop_text : ℕ → String → String
drop_text zero s = s
drop_text (suc n) [] = []
drop_text (suc n) (c ∷ s) = drop_text n s

-- The characters of a text
unfoldable pub length_text : String → ℕ
length_text [] = 0
length_text (c ∷ s) = suc (length_text s)

-- strings.TrimPrefix
unfoldable pub trim_prefix : String → String → String
unfolding has_prefix drop_text length_text
trim_prefix p s = if has_prefix p s then drop_text (length_text p) s else s

-- strings.Contains
unfoldable pub contains : String → String → Bool
unfolding has_prefix
contains p [] = has_prefix p []
contains p (c ∷ s) = has_prefix p (c ∷ s) || contains p s

-- `p + s`, by recursion on the first text
unfoldable pub append_text : String → String → String
append_text [] s = s
append_text (c ∷ p) s = c ∷ append_text p s

pub has_prefix-append_text : (p s : String) → has_prefix p (append_text p s) ≡ true
unfolding has_prefix append_text
has_prefix-append_text [] s = refl
has_prefix-append_text (c ∷ p) s = ground (arith, has_prefix-append_text p s)

-- strings.HasSuffix
unfoldable pub has_suffix : String → String → Bool
has_suffix p [] = p == ""
has_suffix p (c ∷ s) = (c ∷ s) == p || has_suffix p s
