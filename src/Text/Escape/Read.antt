-- ===== src/Text/Escape/Read.antt =====
-- The first `switch` of `CString::Escape_n`: what each format reads at a position, as the character
-- and the text behind it. No character means that the text ended inside a hexadecimal pair.
use znc_playground.Prelude.{
  ℕ, zero, suc, ◌+◌, ◌-◌, ◌*◌, ◌%◌, Bool, true, false, ◌&&◌, not, [], ◌∷◌, Option, none, some, ◌==◌,
  leb, ltb, if◌then◌else◌, Bytes, codes, length, drop, get_or,
}
use znc_playground.Text.Ctype.{is_digit, is_xdigit, is_space, to_lower}
use mathlib.Core.Option
use Prim.Native.Nat.{bit_and}

pub data EscapeKind : Type 0 where
  html ascii url sql named_fmt debug msg_tag hex_colon : EscapeKind

abbrev pub ReadChar : Type 0
ReadChar = Option ℕ × Bytes

abbrev pub backslash : ℕ
backslash = 92

-- `isdigit(*p) ? *p - '0' : tolower(*p) - 'a' + 10`
unfoldable pub hex_value : ℕ → ℕ
unfolding is_digit to_lower
hex_value c = if is_digit c then c - b'0' else to_lower c - b'a' + 10

-- `hi << 4 | lo`: the low four bits of the first are clear and `lo` is below 16
abbrev pub hex_pair : ℕ → ℕ → ℕ
hex_pair hi lo = hex_value hi * 16 % 256 + hex_value lo

-- `strnchr`: the text up to and with the first `c`, within `n` bytes and before any NUL
unfoldable pub strnchr : ℕ → ℕ → Bytes → Option Bytes
strnchr n c [] = none
strnchr zero c (x ∷ s) = none
strnchr (suc n) c (x ∷ s) =
    let later = Option.map (◌∷◌ x) (strnchr n c s) in
    if x == 0 then none else if x == c then some (x ∷ []) else later

-- `strncasecmp(s, t, length t) == 0`
unfoldable pub starts_with_nocase : Bytes → Bytes → Bool
unfolding to_lower
starts_with_nocase s [] = true
starts_with_nocase [] (y ∷ t) = false
starts_with_nocase (x ∷ s) (y ∷ t) = to_lower x == to_lower y && starts_with_nocase s t

-- The digits of `strtol`. It stops at LONG_MAX; all that is asked of the value is whether it
-- exceeds 255, for which the bound makes no difference.
abbrev is_digit_in : ℕ → ℕ → Bool
is_digit_in base c = if base == 16 then is_xdigit c else is_digit c

unfoldable pub strtol_digits : ℕ → ℕ → Bytes → ℕ × Bytes
unfolding is_digit is_xdigit hex_value
strtol_digits base acc [] = (acc, [])
strtol_digits base acc (c ∷ s) =
    let rest = strtol_digits base (acc * base + hex_value c) s in
    if is_digit_in base c then rest else (acc, c ∷ s)

starts_with_digit : ℕ → Bytes → Bool
starts_with_digit base [] = false
starts_with_digit base (c ∷ s) = is_digit_in base c

-- An optional "0x" in base 16
unfoldable pub skip_0x : ℕ → Bytes → Bytes
unfolding starts_with_digit is_xdigit is_digit to_lower
skip_0x base (z ∷ x ∷ s) =
    if base == 16 && z == b'0' && to_lower x == b'x' && starts_with_digit 16 s then s else z ∷ x ∷ s
skip_0x base s = s

unfoldable pub skip_space : Bytes → Bytes
unfolding is_space
skip_space [] = []
skip_space (c ∷ s) = let rest = skip_space s in if is_space c then rest else c ∷ s

unfoldable pub take_sign : Bytes → Bool × Bytes
take_sign [] = (false, [])
take_sign (c ∷ s) =
    if c == b'-' then (true, s) else if c == b'+' then (false, s) else (false, c ∷ s)

-- `strtol(s, &endptr, base)`: negative or not, the absolute value, and the text at `endptr`
unfoldable pub strtol : ℕ → Bytes → Bool × ℕ × Bytes
unfolding strtol_digits starts_with_digit skip_0x skip_space take_sign
strtol base s =
    let (negative, unsigned) = take_sign (skip_space s) in
    let digits = skip_0x base unsigned in
    let (value, rest) = strtol_digits base 0 digits in
    if starts_with_digit base digits then (negative, value, rest) else (false, 0, s)

-- `&#97;` and `&#x3c`: `tmp` holds the text from `&` to `;`. A negative value is far above 255 once
-- it is unsigned.
unfoldable pub numeric_entity : Bytes → Option ℕ
unfolding strtol
numeric_entity tmp =
    let base = if bit_and (get_or tmp 2 0) 0xDF == b'X' then 16 else 10 in
    let (negative, value, rest) = strtol base (drop (if base == 16 then 3 else 2) tmp) in
    if leb 3 (length tmp - 1)
      && get_or tmp 1 0 == b'#'
      && (get_or rest 0 0 == b';' && leb value 255 && not (negative && ltb 0 value))
    then some value
    else none

unfoldable pub named_entity : Bytes → Option ℕ
unfolding starts_with_nocase
named_entity tmp =
    if starts_with_nocase tmp (codes "&lt;")
    then some b'<'
    else if starts_with_nocase tmp (codes "&gt;")
    then some b'>'
    else if starts_with_nocase tmp (codes "&quot;")
    then some b'"'
    else if starts_with_nocase tmp (codes "&amp;")
    then some b'&'
    else none

-- `case EHTML` behind the test for `&`; `s` stands at the `&`, and `tmp` is what `strnchr` copied
entity_in : Option Bytes → Bytes → Bytes → ReadChar
unfolding numeric_entity named_entity
entity_in none s rest = (some b'&', rest)
entity_in (some tmp) s rest = elim (numeric_entity tmp) [
  | some v ↦ (some v, drop (length tmp) s)
  | none ↦ elim (named_entity tmp) [
    | some v ↦ (some v, drop (length tmp) s)
    | none ↦ (some b'&', rest)
  ]
]

unfoldable pub read_html : ℕ → Bytes → ReadChar
unfolding entity_in strnchr
read_html c s = if c == b'&' then entity_in (strnchr 20 b';' (c ∷ s)) (c ∷ s) s else (some c, s)

-- `case EURL` behind a `%`
percent : Bytes → ReadChar
unfolding is_xdigit hex_value
percent (h ∷ l ∷ s) =
    if is_xdigit h && is_xdigit l then (some (hex_pair h l), s) else (some b'%', h ∷ l ∷ s)
percent s = (some b'%', s)

unfoldable pub read_url : ℕ → Bytes → ReadChar
unfolding percent
read_url c s = if c == b'%' then percent s else if c == b'+' then (some b' ', s) else (some c, s)

-- `case ESQL`, `case ENAMEDFMT` and `case EMSGTAG`. Their test `iLength < (a + 1)` never holds inside
-- the loop, so a backslash at the end is followed by the NUL that ends the text.
escaped : (ℕ → ℕ) → Bytes → ReadChar
escaped unescape [] = (some (unescape 0), [])
escaped unescape (c ∷ s) = (some (unescape c), s)

unfoldable pub read_backslash : (ℕ → ℕ) → ℕ → Bytes → ReadChar
unfolding escaped
read_backslash unescape c s = if c == backslash then escaped unescape s else (some c, s)

unfoldable pub unescape_sql : ℕ → ℕ
unescape_sql c =
    if c == b'n'
    then 10
    else if c == b'r'
    then 13
    else if c == b'0'
    then 0
    else if c == b't'
    then 9
    else if c == b'b'
    then 8
    else c

unfoldable pub unescape_msg_tag : ℕ → ℕ
unescape_msg_tag c =
    if c == b':'
    then b';'
    else if c == b's'
    then b' '
    else if c == b'0'
    then 0
    else if c == backslash
    then backslash
    else if c == b'r'
    then 13
    else if c == b'n'
    then 10
    else c

-- `case EDEBUG` behind a backslash
debug_dot : Bytes → ReadChar
debug_dot [] = (some backslash, [])
debug_dot (d ∷ s) = if d == b'.' then (some backslash, s) else (some backslash, d ∷ s)

debug_escape : Bytes → ReadChar
unfolding is_xdigit hex_value debug_dot
debug_escape (x ∷ h ∷ l ∷ s) =
    if x == b'x' && is_xdigit h && is_xdigit l
    then (some (hex_pair h l), s)
    else debug_dot (x ∷ h ∷ l ∷ s)
debug_escape s = debug_dot s

unfoldable pub read_debug : ℕ → Bytes → ReadChar
unfolding debug_escape
read_debug c s = if c == backslash then debug_escape s else (some c, s)

-- `while (!isxdigit(*p) && a < iLength)`
unfoldable pub skip_non_hex : Bytes → Bytes
unfolding is_xdigit
skip_non_hex [] = []
skip_non_hex (c ∷ s) = let rest = skip_non_hex s in if is_xdigit c then c ∷ s else rest

low_digit : ℕ → Bytes → ReadChar
unfolding hex_value
low_digit h [] = (none, [])
low_digit h (l ∷ s) = (some (hex_pair h l), s)

high_digit : Bytes → ReadChar
unfolding low_digit skip_non_hex
high_digit [] = (none, [])
high_digit (h ∷ s) = low_digit h (skip_non_hex s)

unfoldable pub read_hex_colon : Bytes → ReadChar
unfolding high_digit skip_non_hex
read_hex_colon s = high_digit (skip_non_hex s)

-- The switch over `eFrom`, at the character `c` with `s` behind it
unfoldable pub read_char : EscapeKind → ℕ → Bytes → ReadChar
unfolding read_html read_url read_backslash unescape_sql unescape_msg_tag read_debug read_hex_colon
read_char html c s = read_html c s
read_char ascii c s = (some c, s)
read_char url c s = read_url c s
read_char sql c s = read_backslash unescape_sql c s
read_char named_fmt c s = read_backslash (λ d. d) c s
read_char debug c s = read_debug c s
read_char msg_tag c s = read_backslash unescape_msg_tag c s
read_char hex_colon c s = read_hex_colon (c ∷ s)
