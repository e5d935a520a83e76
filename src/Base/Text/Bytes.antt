-- ===== src/Base/Text/Bytes.antt =====
-- Go's `len(s)` and `s[:n]` on a text in UTF-8. A character that the slice cuts leaves single bytes,
-- and each of them is written as U+FFFD by `json.Marshal`.
use Prim.Native.Nat.{ℕ, zero, suc, ◌+◌, ◌-◌}
use Prim.Native.Char.{Char, code}
use Prim.Native.String.{String, [], ◌∷◌}
use mathlib.Core.Path.{◌≡◌, refl}
use native.Mathlib.Omega.{arith}
use copilot_pool_gateway.Base.Tests.{ltb, leb, if◌then◌else◌}
use copilot_pool_gateway.Base.Text.Prefix.{append_text, has_prefix}

-- The bytes of a character
unfoldable pub width : Char → ℕ
width c =
    if ltb (code c) 128
    then 1
    else if ltb (code c) 2048
    then 2
    else if ltb (code c) 65536
    then 3
    else 4

-- `len(s)`
unfoldable pub length_bytes : String → ℕ
unfolding width
length_bytes [] = 0
length_bytes (c ∷ s) = width c + length_bytes s

-- The bytes of a cut character
unfoldable pub replaced_bytes : ℕ → String
replaced_bytes zero = []
replaced_bytes (suc n) = "�" ∷ replaced_bytes n

-- `s[:n]`
unfoldable pub take_bytes : ℕ → String → String
unfolding width replaced_bytes
take_bytes n [] = []
take_bytes n (c ∷ s) =
    let rest = take_bytes (n - width c) s in if leb (width c) n then c ∷ rest else replaced_bytes n

take_bytes-zero : (s : String) → take_bytes 0 s ≡ []
unfolding take_bytes width replaced_bytes
take_bytes-zero [] = refl
take_bytes-zero (c ∷ s) = ground arith

taken :
    (w n : ℕ) (c : Char) (s t : String)
    → take_bytes n s ≡ t
    → (if leb w (w + n) then c ∷ take_bytes ((w + n) - w) s else replaced_bytes (w + n)) ≡ (c ∷ t)
taken w n c s t e = ground (arith, e)

-- The first bytes of a text followed by another.
pub take_bytes-append_text : (s t : String) → take_bytes (length_bytes s) (append_text s t) ≡ s
unfolding take_bytes append_text length_bytes
take_bytes-append_text [] t = take_bytes-zero t
take_bytes-append_text (c ∷ s) t =
    taken (width c) (length_bytes s) c (append_text s t) s (take_bytes-append_text s t)

pub length_bytes-append_text :
    (s t : String) → length_bytes (append_text s t) ≡ length_bytes s + length_bytes t
unfolding length_bytes append_text
length_bytes-append_text [] t = ground arith
length_bytes-append_text (c ∷ s) t = ground (arith, length_bytes-append_text s t)

-- A first character is that of the first text, if there is one.
pub has_prefix-append_text_first :
    (d : Char) (s t : String) (n : ℕ)
    → length_bytes s ≡ suc n
    → has_prefix (d ∷ []) (append_text s t) ≡ has_prefix (d ∷ []) s
unfolding has_prefix append_text length_bytes
has_prefix-append_text_first d [] t n h = absurd (ground arith)
has_prefix-append_text_first d (c ∷ s) t n h = refl

-- A slice through the three bytes of the euro sign
take_bytes_test : take_bytes 3 "a€b" ≡ "a��"
unfolding take_bytes width replaced_bytes
take_bytes_test = refl
