-- ===== src/Text/Escape/Flat.antt =====
-- Reading back one character that was written, in front of any text.
use znc_playground.Prelude.{
  Bool, ◌==◌, ◌||◌, if◌then◌else◌, ℕ, ◌/◌, ◌%◌, ◌<◌, ◌≡◌, ◌≢◌, refl, ◌++◌, [], ◌∷◌, some, none,
  arith, Bytes, length,
}
use znc_playground.Text.Escape.Read.{
  EscapeKind, html, ascii, url, sql, named_fmt, debug, msg_tag, hex_colon, ReadChar, read_char,
}
use znc_playground.Text.Escape.Write.{write_char}
use znc_playground.Text.Escape.Hex.{hex_digit-IsHexOf}

-- `read_char` at the front of a text
abbrev pub read_front : EscapeKind → Bytes → ReadChar
read_front k [] = (none, [])
read_front k (c ∷ s) = read_char k c s

module _ (c : ℕ) (rest : Bytes) where
  read-write_html : read_front html (write_char html c ++ rest) ≡ (some c, rest)
  unfolding read_char write_char
  read-write_html = ground arith

  read-write_url : c < 256 → read_front url (write_char url c ++ rest) ≡ (some c, rest)
  unfolding read_char write_char
  read-write_url h =
      ground
        (arith, hex_digit-IsHexOf (c / 16) (omega arith), hex_digit-IsHexOf (c % 16) (omega arith))

  read-write_sql : read_front sql (write_char sql c ++ rest) ≡ (some c, rest)
  unfolding read_char write_char
  read-write_sql = ground arith

  read-write_named_fmt : read_front named_fmt (write_char named_fmt c ++ rest) ≡ (some c, rest)
  unfolding read_char write_char
  read-write_named_fmt = ground arith

  read-write_debug : c < 256 → read_front debug (write_char debug c ++ rest) ≡ (some c, rest)
  unfolding read_char write_char
  read-write_debug h =
      ground
        (arith, hex_digit-IsHexOf (c / 16) (omega arith), hex_digit-IsHexOf (c % 16) (omega arith))

  read-write_msg_tag : read_front msg_tag (write_char msg_tag c ++ rest) ≡ (some c, rest)
  unfolding read_char write_char
  read-write_msg_tag = ground arith

-- Every format but `hex_colon`, whose separators are read with the character behind them
pub read-write :
    (k : EscapeKind) (c : ℕ) (rest : Bytes)
    → k ≢ hex_colon
    → c < 256
    → read_front k (write_char k c ++ rest) ≡ (some c, rest)
read-write html c rest n h = read-write_html c rest
read-write ascii c rest n h = unfold read_char write_char in refl
read-write url c rest n h = read-write_url c rest h
read-write sql c rest n h = read-write_sql c rest
read-write named_fmt c rest n h = read-write_named_fmt c rest
read-write debug c rest n h = read-write_debug c rest h
read-write msg_tag c rest n h = read-write_msg_tag c rest
read-write hex_colon c rest n h = absurd (n refl)

pub write_char_pos : (k : EscapeKind) (c : ℕ) → 0 < length (write_char k c)
unfolding write_char
write_char_pos html c = ground arith
write_char_pos _ c = ground arith

-- The characters that a format of `NamedFormat` reads in its own way
abbrev pub is_special : ℕ → Bool
is_special c = c == b'\\' || c == b'{' || c == b'}'

pub write_named_fmt_lem :
    (c : ℕ) → write_char named_fmt c ≡ (if is_special c then b'\\' ∷ c ∷ [] else c ∷ [])
unfolding write_char
write_named_fmt_lem c = ground arith
