-- ===== src/Text/Number/Defs.antt =====
-- Writing and reading a number in base 10.
use znc_playground.Prelude.{
  ℕ, zero, suc, ◌+◌, ◌-◌, ◌*◌, ◌/◌, ◌%◌, ◌^◌, [], ◌∷◌, ◌++◌, ◌==◌, ltb, if◌then◌else◌, Bytes,
}
use znc_playground.Text.Compare.{c_str}
use znc_playground.Text.Ctype.{is_digit, is_space}

-- The digits, the highest first; a number has no more digits than its value plus one.
unfoldable pub digits : ℕ → ℕ → Bytes
digits zero n = []
digits (suc fuel) n =
    let front = digits fuel (n / 10) in
    if ltb n 10 then (b'0' + n) ∷ [] else front ++ (b'0' + n % 10) ∷ []

unfoldable pub of_number : ℕ → Bytes
unfolding digits
of_number n = digits (suc n) n

unfoldable pub skip_isspace : Bytes → Bytes
unfolding is_space
skip_isspace [] = []
skip_isspace (c ∷ s) = let rest = skip_isspace s in if is_space c then rest else c ∷ s

-- The value of the digits at the front, behind digits of the value `n`
unfoldable pub read_digits : ℕ → Bytes → ℕ
unfolding is_digit
read_digits n [] = n
read_digits n (c ∷ s) =
    let more = read_digits (n * 10 + (c - b'0')) s in if is_digit c then more else n

abbrev pub ulong_mod : ℕ
ulong_mod = 2 ^ 64

-- `ULONG_MAX` where the number is too large
abbrev saturated : ℕ → ℕ
saturated n = if ltb n ulong_mod then n else ulong_mod - 1

abbrev negated : ℕ → ℕ
negated n = if ltb n ulong_mod then (ulong_mod - n) % ulong_mod else ulong_mod - 1

unfoldable pub read_signed : Bytes → ℕ
unfolding read_digits
read_signed [] = 0
read_signed (c ∷ s) =
    if c == b'-'
    then negated (read_digits 0 s)
    else saturated (read_digits 0 (if c == b'+' then s else c ∷ s))

-- `strtoul(c_str(), nullptr, 10)`
unfoldable pub to_ulong : Bytes → ℕ
unfolding skip_isspace read_signed c_str
to_ulong s = read_signed (skip_isspace (c_str s))

unfoldable pub to_uint : Bytes → ℕ
unfolding to_ulong
to_uint s = to_ulong s % 2 ^ 32

unfoldable pub to_ushort : Bytes → ℕ
unfolding to_ulong
to_ushort s = to_ulong s % 2 ^ 16
