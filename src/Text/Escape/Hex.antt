-- ===== src/Text/Escape/Hex.antt =====
-- The hexadecimal digits that `Escape_n` writes are read back, by a table of the sixteen digits.
use znc_playground.Prelude.{
  ℕ, ◌<◌, ◌≡◌, refl, Bool, true, false, not, ◌&&◌, ◌==◌, arith, passes_first, passes_first-at,
}
use znc_playground.Text.Ctype.{is_xdigit, to_lower}
use znc_playground.Text.Escape.Read.{hex_value}
use znc_playground.Text.Escape.Write.{hex_digit}

reads_back : (ℕ → ℕ) → ℕ → Bool
reads_back digit n = is_xdigit (digit n) && hex_value (digit n) == n && not (digit n == b':')

upper_table : passes_first (reads_back hex_digit) 16 ≡ true
unfolding passes_first reads_back hex_digit is_xdigit hex_value
upper_table = refl

lower_table : passes_first (reads_back (λ n. to_lower (hex_digit n))) 16 ≡ true
unfolding passes_first reads_back hex_digit is_xdigit hex_value
lower_table = refl

-- A digit is hexadecimal, has its value, and is no colon.
abbrev pub IsHexOf : ℕ → ℕ → Type 0
IsHexOf n d = (is_xdigit d ≡ true) × (hex_value d ≡ n) × ((d == b':') ≡ false)

reads_back→IsHexOf : (digit : ℕ → ℕ) (n : ℕ) → reads_back digit n ≡ true → IsHexOf n (digit n)
unfolding reads_back
reads_back→IsHexOf digit n h = ground arith

pub hex_digit-IsHexOf : (n : ℕ) → n < 16 → IsHexOf n (hex_digit n)
hex_digit-IsHexOf n h =
    reads_back→IsHexOf hex_digit n (passes_first-at (reads_back hex_digit) n h upper_table)

pub lower-hex_digit-IsHexOf : (n : ℕ) → n < 16 → IsHexOf n (to_lower (hex_digit n))
lower-hex_digit-IsHexOf n h =
    reads_back→IsHexOf (λ n. to_lower (hex_digit n)) n
      (passes_first-at (reads_back (λ n. to_lower (hex_digit n))) n h lower_table)
