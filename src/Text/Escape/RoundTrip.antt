-- ===== src/Text/Escape/RoundTrip.antt =====
-- What `Escape_n` writes in a format it reads back from that format.
use znc_playground.Prelude.{
  ℕ, zero, suc, ◌/◌, ◌%◌, ◌<◌, ◌≤◌, ◌≡◌, ◌≢◌, refl, ap, ◌∙◌, [], ◌∷◌, ◌++◌, some, arith, Bytes,
  AllBytes, length, length-append, codes,
}
use znc_playground.Text.Ctype.{is_xdigit, to_lower}
use znc_playground.Text.Trim.{trim_right}
use znc_playground.Text.Escape.Flat.{read_front, read-write, write_char_pos}
use znc_playground.Text.Escape.Hex.{lower-hex_digit-IsHexOf}
use znc_playground.Text.Escape.Loop.{emit, escape_loop, escape_n}
use znc_playground.Text.Escape.Read.{
  EscapeKind, html, ascii, url, sql, named_fmt, debug, msg_tag, hex_colon, read_char,
}
use znc_playground.Text.Escape.Write.{write_char, hex_digit}

-- The loop writes each character of a plain text in turn.
abbrev pub flat : EscapeKind → Bytes → Bytes
flat k [] = []
flat k (c ∷ s) = write_char k c ++ flat k s

escape_loop_ascii :
    (f : ℕ) (k : EscapeKind) (s : Bytes) → length s ≤ f → escape_loop f ascii k s ≡ flat k s
unfolding escape_loop read_char
escape_loop_ascii zero k [] h = refl
escape_loop_ascii zero k (c ∷ s) h = absurd (omega arith)
escape_loop_ascii (suc f) k [] h = refl
escape_loop_ascii (suc f) k (c ∷ s) h =
    ap (λ t. write_char k c ++ t) (escape_loop_ascii f k s (omega arith))

-- One round of the loop, where the front of the text is read as `c`
pub round :
    (f : ℕ) (k : EscapeKind) (c : ℕ) (t rest : Bytes)
    → read_front k t ≡ (some c, rest)
    → escape_loop (suc f) k ascii t ≡ c ∷ escape_loop f k ascii rest
unfolding escape_loop write_char
round f k c [] rest h = absurd (ground arith)
round f k c (x ∷ t) rest h = ap (emit ascii (escape_loop f k ascii)) h

flat-read_back :
    (f : ℕ) (k : EscapeKind) (s : Bytes)
    → k ≢ hex_colon
    → AllBytes s
    → length s ≤ f
    → escape_loop f k ascii (flat k s) ≡ s
unfolding escape_loop
flat-read_back zero k [] n b h = refl
flat-read_back (suc f) k [] n b h = refl
flat-read_back zero k (c ∷ s) n b h = absurd (omega arith)
flat-read_back (suc f) k (c ∷ s) n b h =
    round f k c _ (flat k s) (read-write k c (flat k s) n b.0)
    ∙ ap (◌∷◌ c) (flat-read_back f k s n b.1 (omega arith))

pub length-le-flat : (k : EscapeKind) (s : Bytes) → length s ≤ length (flat k s)
length-le-flat k [] = omega arith
length-le-flat k (c ∷ s) =
    omega (arith, length-append (write_char k c) (flat k s), write_char_pos k c, length-le-flat k s)

-- What is left of `flat hex_colon` behind the first pair, with the last colon trimmed
abbrev pairs : Bytes → Bytes
pairs [] = []
pairs (c ∷ s) = b':' ∷ to_lower (hex_digit (c / 16)) ∷ to_lower (hex_digit (c % 16)) ∷ pairs s

abbrev joined : Bytes → Bytes
joined [] = []
joined (c ∷ s) = to_lower (hex_digit (c / 16)) ∷ to_lower (hex_digit (c % 16)) ∷ pairs s

trim-flat : (s : Bytes) → AllBytes s → trim_right (codes ":") (flat hex_colon s) ≡ joined s
unfolding trim_right write_char
trim-flat [] b = refl
trim-flat (c ∷ []) b = ground (
  arith,
  lower-hex_digit-IsHexOf (c / 16) (omega arith),
  lower-hex_digit-IsHexOf (c % 16) (omega arith),
)
trim-flat (c ∷ d ∷ s) b = ground (
  arith,
  lower-hex_digit-IsHexOf (c / 16) (omega arith),
  lower-hex_digit-IsHexOf (c % 16) (omega arith),
  trim-flat (d ∷ s) b.1,
)

read-pair :
    (c : ℕ) (rest : Bytes)
    → c < 256
    → read_char hex_colon (to_lower (hex_digit (c / 16))) (to_lower (hex_digit (c % 16)) ∷ rest)
      ≡ (some c, rest)
unfolding read_char
read-pair c rest h = ground (
  arith,
  lower-hex_digit-IsHexOf (c / 16) (omega arith),
  lower-hex_digit-IsHexOf (c % 16) (omega arith),
)

skip_colon : (t : Bytes) → read_char hex_colon b':' t ≡ read_front hex_colon t
unfolding read_char is_xdigit
skip_colon [] = refl
skip_colon (x ∷ t) = refl

pairs-read_back :
    (f : ℕ) (s : Bytes) → AllBytes s → length s ≤ f → escape_loop f hex_colon ascii (pairs s) ≡ s
unfolding escape_loop
pairs-read_back zero [] b h = refl
pairs-read_back (suc f) [] b h = refl
pairs-read_back zero (c ∷ s) b h = absurd (omega arith)
pairs-read_back (suc f) (c ∷ s) b h =
    round f hex_colon c (pairs (c ∷ s)) (pairs s) (skip_colon _ ∙ read-pair c (pairs s) b.0)
    ∙ ap (◌∷◌ c) (pairs-read_back f s b.1 (omega arith))

joined-read_back :
    (f : ℕ) (s : Bytes) → AllBytes s → length s ≤ f → escape_loop f hex_colon ascii (joined s) ≡ s
unfolding escape_loop
joined-read_back zero [] b h = refl
joined-read_back (suc f) [] b h = refl
joined-read_back zero (c ∷ s) b h = absurd (omega arith)
joined-read_back (suc f) (c ∷ s) b h =
    round f hex_colon c (joined (c ∷ s)) (pairs s) (read-pair c (pairs s) b.0)
    ∙ ap (◌∷◌ c) (pairs-read_back f s b.1 (omega arith))

length-le-joined : (s : Bytes) → length s ≤ length (joined s)
length-le-joined [] = omega arith
length-le-joined (c ∷ s) = omega (arith, length-le-pairs s)
  where
    length-le-pairs : (s : Bytes) → length s ≤ length (pairs s)
    length-le-pairs [] = omega arith
    length-le-pairs (c ∷ s) = omega (arith, length-le-pairs s)

pub escape_n-flat : (k : EscapeKind) (s : Bytes) → k ≢ hex_colon → escape_n ascii k s ≡ flat k s
unfolding escape_n
escape_n-flat hex_colon s n = absurd (n refl)
escape_n-flat _ s n = escape_loop_ascii (length s) _ s (omega arith)

escape_n-joined : (s : Bytes) → AllBytes s → escape_n ascii hex_colon s ≡ joined s
unfolding escape_n
escape_n-joined s b =
    ap (trim_right (codes ":")) (escape_loop_ascii (length s) hex_colon s (omega arith))
    ∙ trim-flat s b

module _ (s : Bytes) (b : AllBytes s) where
  plain_round_trip : (k : EscapeKind) → k ≢ hex_colon → escape_n k ascii (escape_n ascii k s) ≡ s
  plain_round_trip k n =
      rw (escape_n-flat k s n) (unfold escape_n in flat-read_back _ k s n b (length-le-flat k s))

  -- For each of the eight formats, a text of bytes that is written in the format and then read from
  -- it is the text again.
  pub escape_n-escape_n : (k : EscapeKind) → escape_n k ascii (escape_n ascii k s) ≡ s
  escape_n-escape_n hex_colon =
      rw (escape_n-joined s b) (unfold escape_n in joined-read_back _ s b (length-le-joined s))
  escape_n-escape_n html = plain_round_trip html (λ e. cc)
  escape_n-escape_n ascii = plain_round_trip ascii (λ e. cc)
  escape_n-escape_n url = plain_round_trip url (λ e. cc)
  escape_n-escape_n sql = plain_round_trip sql (λ e. cc)
  escape_n-escape_n named_fmt = plain_round_trip named_fmt (λ e. cc)
  escape_n-escape_n debug = plain_round_trip debug (λ e. cc)
  escape_n-escape_n msg_tag = plain_round_trip msg_tag (λ e. cc)
