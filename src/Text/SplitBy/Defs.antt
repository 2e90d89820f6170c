-- ===== src/Text/SplitBy/Defs.antt =====
-- The loop of `Split`. A pointer into the text is the rest of the text, which ends at the first NUL.
use znc_playground.Prelude.{
  ℕ, zero, suc, Bool, true, false, not, ◌&&◌, ◌||◌, List, [], ◌∷◌, ◌++◌, ◌==◌, if◌then◌else◌, Bytes,
  codes, length, drop,
}
use znc_playground.Text.Compare.{c_str}
use znc_playground.Text.Ctype.{to_lower}
use znc_playground.Text.Trim.{trim}

pub record SplitOptions : Type 0 where
  pub delim : Bytes
  pub allow_empty : Bool
  pub left_quote : Bytes
  pub right_quote : Bytes
  pub trim_quotes : Bool
  pub trim_spaces : Bool

-- `strncasecmp(p, s, n) == 0` for the text `s` of the length `n`
unfoldable pub starts_any_case : Bytes → Bytes → Bool
unfolding to_lower
starts_any_case [] s = true
starts_any_case (y ∷ t) [] = y == 0
starts_any_case (y ∷ t) (x ∷ s) = to_lower x == to_lower y && (x == 0 || starts_any_case t s)

-- The loop that passes delimiters. The delimiter is not empty: with an empty one it does not end.
unfoldable pub skip_delims : ℕ → Bytes → Bytes → Bytes
unfolding starts_any_case
skip_delims zero delim s = s
skip_delims (suc fuel) delim s =
    let rest = skip_delims fuel delim (drop (length delim) s) in
    if starts_any_case delim s then rest else s

unfoldable pub pass_delims : SplitOptions → Bytes → Bytes
unfolding skip_delims
pass_delims o s = if o.allow_empty then s else skip_delims (length s) o.delim s

abbrev pub is_nil : Bytes → Bool
is_nil [] = true
is_nil (c ∷ s) = false

-- `if (bTrimWhiteSpace) sTmp.Trim()`
abbrev pub part_of : SplitOptions → Bytes → Bytes
part_of o part = if o.trim_spaces then trim (b' ' ∷ 9 ∷ 13 ∷ 10 ∷ []) part else part

-- What is pushed at the end
abbrev pub last_part : SplitOptions → Bytes → List Bytes
last_part o [] = []
last_part o (c ∷ part) = part_of o (c ∷ part) ∷ []

-- Whether `quote` stands here, in a text that has both quotes
unfoldable pub at_quote : SplitOptions → Bytes → Bytes → Bool
unfolding starts_any_case
at_quote o quote s =
    not (is_nil o.left_quote) && not (is_nil o.right_quote) && starts_any_case quote s

-- The loop on `bInside`, `sTmp` and `p`. Every round takes a byte at least.
unfoldable pub split_loop : ℕ → SplitOptions → Bool → Bytes → Bytes → List Bytes
unfolding at_quote starts_any_case pass_delims
split_loop zero o inside part s = []
split_loop (suc fuel) o inside part [] = last_part o part
split_loop (suc fuel) o inside part (c ∷ s) =
    let opened =
      split_loop fuel o true (if o.trim_quotes then part else part ++ o.left_quote)
        (drop (length o.left_quote) (c ∷ s)) in
    let closed =
      split_loop fuel o false (if o.trim_quotes then part else part ++ o.right_quote)
        (drop (length o.right_quote) (c ∷ s)) in
    let divided =
      part_of o part ∷ split_loop fuel o false [] (pass_delims o (drop (length o.delim) (c ∷ s))) in
    let more = split_loop fuel o inside (part ++ c ∷ []) s in
    if not inside && at_quote o o.left_quote (c ∷ s)
    then opened
    else if inside && at_quote o o.right_quote (c ∷ s)
    then closed
    else if not (is_nil o.delim) && (not inside && starts_any_case o.delim (c ∷ s))
    then divided
    else more

unfoldable pub split_by : SplitOptions → Bytes → List Bytes
unfolding split_loop pass_delims c_str
split_by o s = let p = pass_delims o (c_str s) in split_loop (suc (length p)) o false [] p

abbrev pub word_options : SplitOptions
word_options = record {
  delim = codes " ";
  allow_empty = false;
  left_quote = [];
  right_quote = [];
  trim_quotes = true;
  trim_spaces = false;
}

-- `Split(" ", …, false)`
unfoldable pub words : Bytes → List Bytes
unfolding split_by
words = split_by word_options

abbrev pub quote_options : SplitOptions
quote_options = record {
  delim = codes " ";
  allow_empty = false;
  left_quote = b'"' ∷ [];
  right_quote = b'"' ∷ [];
  trim_quotes = true;
  trim_spaces = false;
}

unfoldable pub quote_split : Bytes → List Bytes
unfolding split_by
quote_split = split_by quote_options
