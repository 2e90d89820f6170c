-- ===== src/Config/Parse.antt =====
-- `Parse` of `CConfig`. The file is the list of the lines that `ReadLine` gives, and an error is its
-- kind; the number of the line and the message are left out.
use znc_playground.Config.Defs.{Config, empty_config, add_sub_config, push_entry}
use znc_playground.Prelude.{
  Bool, true, false, not, ◌&&◌, ◌||◌, List, [], ◌∷◌, if◌then◌else◌, Bytes, codes,
}
use znc_playground.Text.Compare.{
  equals, insensitive, starts_with, ends_with, left_chomp, right_chomp, trim_prefix, as_lower,
}
use znc_playground.Text.Token.{token}
use znc_playground.Text.Trim.{trim_left, trim_right, trim}

pub data ParseError : Type 0 where
  bad_closing_tag not_open duplicate_name no_block_name malformed_line open_comment open_tags :
      ParseError

pub data Result {ℓ} (A : Type ℓ) : Type ℓ where
  ok : A → Result A
  err : ParseError → Result A

-- An entry of `ConfigStack`, with the configuration around the block in place of that of the block
pub record Open : Type 0 where
  pub tag : Bytes
  pub name : Bytes
  pub around : Config

-- `*pActiveConfig`, `ConfigStack` and `bCommented`
pub record ParseState : Type 0 where
  pub active : Config
  pub stack : List Open
  pub commented : Bool

abbrev pub spaces : Bytes
spaces = b' ' ∷ 9 ∷ 13 ∷ 10 ∷ []

abbrev pub line_ends : Bytes
line_ends = 13 ∷ 10 ∷ []

abbrev pub is_nil : Bytes → Bool
is_nil [] = true
is_nil (c ∷ s) = false

-- The block goes into the configuration around it.
abbrev pub closed : List Open → Config × Bool → Result ParseState
closed stack (c, true) = ok (record { active = c; stack = stack; commented = false })
closed stack (c, false) = err duplicate_name

-- The closing tag against the innermost open block
unfoldable pub close_block : Bytes → Config → List Open → Result ParseState
unfolding equals add_sub_config
close_block tag sub [] = err not_open
close_block tag sub (o ∷ stack) =
    if not (equals insensitive tag o.tag)
    then err not_open
    else closed stack (add_sub_config (as_lower tag) o.name sub o.around)

unfoldable pub close_tag : ParseState → Bytes → Bytes → Result ParseState
unfolding close_block
close_tag st tag (v ∷ value) = err bad_closing_tag
close_tag st tag [] = close_block tag st.active st.stack

unfoldable pub open_tag : ParseState → Bytes → Bytes → Result ParseState
open_tag st tag [] = err no_block_name
open_tag st tag (v ∷ value) = ok (record st {
  active = empty_config;
  stack = record { tag = as_lower tag; name = v ∷ value; around = st.active } ∷ st.stack;
})

unfoldable pub tag_parts : ParseState → Bytes × Bool → Bytes → Result ParseState
unfolding close_tag open_tag
tag_parts st (tag, true) value = close_tag st tag value
tag_parts st (tag, false) value = open_tag st tag value

-- The line between the angle brackets
unfoldable pub tag_line : ParseState → Bytes → Result ParseState
tag_line st inner =
    tag_parts st (trim_prefix (codes "/") (trim spaces (token 0 false (codes " ") false inner)))
      (trim spaces (token 1 true (codes " ") false inner))

unfoldable pub entry_parts : ParseState → Bytes → Bytes → Result ParseState
entry_parts st name value =
    if is_nil name || is_nil value
    then err malformed_line
    else ok (record st { active = push_entry (as_lower name) value st.active })

unfoldable pub entry_line : ParseState → Bytes → Result ParseState
entry_line st line =
    entry_parts st (trim spaces (token 0 false (codes "=") false line))
      (trim_prefix (codes " ") (token 1 true (codes "=") false line)).0

abbrev pub begins : Bytes → Bytes → Bool
begins s prefix = starts_with insensitive s prefix

unfoldable pub trimmed_line : ParseState → Bytes → Result ParseState
trimmed_line st line =
    if st.commented || begins line (codes "/*")
    then ok (record st { commented = not (ends_with insensitive line (codes "*/")) })
    else if is_nil line || (begins line (codes "#") || begins line (codes "//"))
    then ok st
    else if begins line (codes "<") && ends_with insensitive line (codes ">")
    then tag_line st (trim spaces (right_chomp 1 (left_chomp 1 line)))
    else entry_line st line

-- One round of the loop
unfoldable pub read_line : ParseState → Bytes → Result ParseState
read_line st line = trimmed_line st (trim_right line_ends (trim_left spaces line))

-- Behind the loop
unfoldable pub finish_stack : Config → List Open → Result Config
finish_stack c [] = ok c
finish_stack c (o ∷ stack) = err open_tags

unfoldable pub finish_parse : ParseState → Result Config
unfolding finish_stack
finish_parse st = if st.commented then err open_comment else finish_stack st.active st.stack

infixl 5 ◌>>=◌
abbrev pub ◌>>=◌ {ℓ κ} : {A : Type ℓ} {B : Type κ} → Result A → (A → Result B) → Result B
ok a >>= f = f a
err e >>= f = err e

unfoldable pub parse_lines : ParseState → List Bytes → Result Config
parse_lines st [] = finish_parse st
parse_lines st (line ∷ lines) = read_line st line >>= λ next. parse_lines next lines

-- `Parse` on a configuration, to which it adds
abbrev pub parse_into : Config → List Bytes → Result Config
parse_into c = parse_lines (record { active = c; stack = []; commented = false })

unfoldable pub parse_config : List Bytes → Result Config
unfolding parse_lines
parse_config = parse_into empty_config
