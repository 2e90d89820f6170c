-- ===== src/Text/Escape/Write.antt =====
-- The second `switch` of `CString::Escape_n`: how each format writes a character.
use znc_playground.Prelude.{
  ℕ, ◌%◌, ◌/◌, ◌||◌, [], ◌∷◌, ◌==◌, ltb, if◌then◌else◌, Bytes, codes, get_or,
}
use znc_playground.Text.Ctype.{is_alnum, to_lower}
use znc_playground.Text.Escape.Read.{
  EscapeKind, html, ascii, url, sql, named_fmt, debug, msg_tag, hex_colon, backslash,
}

-- `szHex[n]`
unfoldable pub hex_digit : ℕ → ℕ
hex_digit n = get_or (codes "0123456789ABCDEF") n 0

abbrev backslashed : ℕ → Bytes
backslashed c = backslash ∷ c ∷ []

abbrev pub hex_digits : ℕ → Bytes
hex_digits c = hex_digit (c / 16) ∷ hex_digit (c % 16) ∷ []

write_html : ℕ → Bytes
write_html c =
    if c == b'<'
    then codes "&lt;"
    else if c == b'>'
    then codes "&gt;"
    else if c == b'"'
    then codes "&quot;"
    else if c == b'&'
    then codes "&amp;"
    else c ∷ []

write_url : ℕ → Bytes
unfolding is_alnum
write_url c =
    if is_alnum c || c == b'_' || c == b'.' || c == b'-'
    then c ∷ []
    else if c == b' '
    then b'+' ∷ []
    else b'%' ∷ hex_digits c

write_sql : ℕ → Bytes
write_sql c =
    if c == 0
    then backslashed b'0'
    else if c == 10
    then backslashed b'n'
    else if c == 9
    then backslashed b't'
    else if c == 13
    then backslashed b'r'
    else if c == 8
    then backslashed b'b'
    else if c == b'"'
    then backslashed b'"'
    else if c == 39
    then backslashed 39
    else if c == backslash
    then backslashed backslash
    else c ∷ []

write_named_fmt : ℕ → Bytes
write_named_fmt c =
    if c == backslash
    then backslashed backslash
    else if c == b'{'
    then backslashed b'{'
    else if c == b'}'
    then backslashed b'}'
    else c ∷ []

write_debug : ℕ → Bytes
write_debug c =
    if ltb c 32 || c == 0x7F
    then backslash ∷ b'x' ∷ hex_digits c
    else if c == backslash
    then backslashed b'.'
    else c ∷ []

write_msg_tag : ℕ → Bytes
write_msg_tag c =
    if c == b';'
    then backslashed b':'
    else if c == b' '
    then backslashed b's'
    else if c == 0
    then backslashed b'0'
    else if c == backslash
    then backslashed backslash
    else if c == 13
    then backslashed b'r'
    else if c == 10
    then backslashed b'n'
    else c ∷ []

write_hex_colon : ℕ → Bytes
unfolding to_lower
write_hex_colon c = to_lower (hex_digit (c / 16)) ∷ to_lower (hex_digit (c % 16)) ∷ b':' ∷ []

-- The switch over `eTo`
unfoldable pub write_char : EscapeKind → ℕ → Bytes
unfolding write_html write_url write_sql write_named_fmt write_debug write_msg_tag write_hex_colon
write_char html c = write_html c
write_char ascii c = c ∷ []
write_char url c = write_url c
write_char sql c = write_sql c
write_char named_fmt c = write_named_fmt c
write_char debug c = write_debug c
write_char msg_tag c = write_msg_tag c
write_char hex_colon c = write_hex_colon c
