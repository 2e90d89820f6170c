-- ===== src/Text/Number/RoundTrip.antt =====
-- A number that is written is read back.
use znc_playground.Prelude.{
  ℕ, zero, suc, ◌+◌, ◌*◌, ◌/◌, ◌%◌, ◌^◌, ◌<◌, ◌≤◌, ◌≡◌, ◌≢◌, refl, ap, sym, ◌∙◌, [], ◌∷◌, ◌++◌,
  append-nil, append_assoc, ltb, if_elim, Bytes, All, arith, Bool-cases, inl, inr,
}
use znc_playground.Text.Compare.{c_str}
use znc_playground.Text.Ctype.{is_digit}
use znc_playground.Text.Number.Defs.{
  digits, of_number, skip_isspace, read_digits, read_signed, to_ulong, to_ushort, ulong_mod,
}

-- Decimal digits, and at least one
abbrev pub AreDigits : Bytes → Type 0
AreDigits s = All (λ c. (b'0' ≤ c) × (c ≤ b'9')) s

AreDigits-append : (s : Bytes) (c : ℕ) → AreDigits s → b'0' ≤ c → c ≤ b'9' → AreDigits (s ++ c ∷ [])
AreDigits-append [] c h k l = ((k, l), tt)
AreDigits-append (x ∷ s) c h k l = (h.0, AreDigits-append s c h.1 k l)

digits-AreDigits : (fuel n : ℕ) → AreDigits (digits fuel n)
unfolding digits
digits-AreDigits zero n = tt
digits-AreDigits (suc fuel) n =
    if_elim AreDigits (ltb n 10) _ _ (λ e. ((omega arith, ground arith), tt))
      (λ e.
        AreDigits-append (digits fuel (n / 10)) (b'0' + n % 10) (digits-AreDigits fuel (n / 10))
          (omega arith) (omega arith))

pub of_number-AreDigits : (n : ℕ) → AreDigits (of_number n)
unfolding of_number
of_number-AreDigits n = digits-AreDigits (suc n) n

append-ne : (s : Bytes) (c : ℕ) → (s ++ c ∷ []) ≢ []
append-ne [] c e = cc
append-ne (x ∷ s) c e = cc

pub of_number-ne : (n : ℕ) → of_number n ≢ []
unfolding of_number
of_number-ne n = if_elim (λ s. s ≢ []) (ltb n 10) _ _ (λ e f. cc) (λ e. append-ne _ _)

read_digits-cons :
    (m k : ℕ) (rest : Bytes)
    → k < 10
    → read_digits m ((b'0' + k) ∷ rest) ≡ read_digits (m * 10 + k) rest
unfolding read_digits
read_digits-cons m k rest h =
    if_elim (λ r. r ≡ read_digits (m * 10 + k) rest) (is_digit (b'0' + k)) _ _
      (λ e. ap (λ j. read_digits j rest) (omega arith)) (λ e. absurd (ground arith))

read_digits-digits :
    (fuel n : ℕ) (rest : Bytes)
    → n < fuel
    → read_digits 0 (digits fuel n ++ rest) ≡ read_digits n rest
unfolding read_digits digits
read_digits-digits zero n rest h = absurd (omega arith)
read_digits-digits (suc fuel) n rest h = elim (Bool-cases (ltb n 10)) [
  | inl e ↦
      rw e (read_digits-cons 0 n rest (ground arith) ∙ ap (λ j. read_digits j rest) (omega arith))
  | inr e ↦ rw e (
      ap (read_digits 0) (append_assoc (digits fuel (n / 10)) ((b'0' + n % 10) ∷ []) rest)
      ∙ read_digits-digits fuel (n / 10) ((b'0' + n % 10) ∷ rest) (ground arith)
      ∙ read_digits-cons (n / 10) (n % 10) rest (omega arith)
      ∙ ap (λ j. read_digits j rest) (omega arith))
]

c_str-AreDigits : (s : Bytes) → AreDigits s → c_str s ≡ s
unfolding c_str
c_str-AreDigits [] h = refl
c_str-AreDigits (c ∷ s) h = let (n, hs) = h in ground (arith, c_str-AreDigits s hs)

skip_isspace-AreDigits : (s : Bytes) → AreDigits s → skip_isspace s ≡ s
unfolding skip_isspace
skip_isspace-AreDigits [] h = refl
skip_isspace-AreDigits (c ∷ s) h = ground (arith, h.0)

read_signed-AreDigits :
    (s : Bytes) → AreDigits s → read_digits 0 s < ulong_mod → read_signed s ≡ read_digits 0 s
unfolding read_signed
read_signed-AreDigits [] h small = refl
read_signed-AreDigits (c ∷ s) h small = ground (arith, h.0)

-- `ToULong` reads back a number of 64 bits.
pub to_ulong-of_number : (n : ℕ) → n < ulong_mod → to_ulong (of_number n) ≡ n
unfolding to_ulong of_number
to_ulong-of_number n h =
    let s = of_number n in
    let ds = of_number-AreDigits n in
    let value =
      ap (read_digits 0) (sym (append-nil s)) ∙ read_digits-digits (suc n) n [] (omega arith) in
    ap (λ t. read_signed (skip_isspace t)) (c_str-AreDigits s ds)
    ∙ ap read_signed (skip_isspace-AreDigits s ds)
    ∙ read_signed-AreDigits s ds (omega arith)
    ∙ value

-- `ToUShort` reads back a number of 16 bits.
pub to_ushort-of_number : (n : ℕ) → n < 2 ^ 16 → to_ushort (of_number n) ≡ n
unfolding to_ushort
to_ushort-of_number n h = omega (arith, to_ulong-of_number n (omega arith))
