-- ===== src/Config/Tags.antt =====
-- The two lines of a block, as `Parse` reads them.
use znc_playground.Config.Lines.{IsLine, begins-other, ends_with-last, right_chomp-last}
use znc_playground.Config.Parse.{
  ParseState, spaces, begins, trimmed_line, tag_line, tag_parts, close_tag, open_tag,
}
use znc_playground.Prelude.{
  ◌≡◌, ◌≢◌, refl, ap, ap₂, sym, ◌∙◌, true, false, [], ◌∷◌, ◌++◌, append_assoc, Bytes, codes, arith,
}
use znc_playground.Text.Compare.Prefix.{starts_with-append, trim_prefix-append, trim_prefix-absent}
use znc_playground.Text.Compare.{insensitive, left_chomp, trim_prefix}
use znc_playground.Text.Ctype.{to_lower}
use znc_playground.Text.Split.{Lacks}
use znc_playground.Text.Token.{Starts, token-first, token-only, token-rest, token-next, token-last}
use znc_playground.Text.Trim.Clean.{FirstOutside, LastOutside, trim-clean, LastOutside-append}
use znc_playground.Text.Trim.{contains_char, trim}
use znc_playground.Config.Entries.{IsKey, key-Lacks, key-FirstOutside, key-LastOutside, key-begins}

abbrev pub open_text : Bytes → Bytes → Bytes
open_text tag name = codes "<" ++ (tag ++ (codes " " ++ (name ++ codes ">")))

abbrev pub close_text : Bytes → Bytes
close_text tag = codes "</" ++ (tag ++ codes ">")

-- The name of a block: it does not begin or end with a space.
abbrev pub IsBlockName : Bytes → Type 0
IsBlockName s = (s ≢ []) × IsLine s × FirstOutside spaces s × LastOutside spaces s

opens : (s : Bytes) → begins (b'<' ∷ s) (codes "<") ≡ true
opens s = starts_with-append insensitive (codes "<") s

not_comment : (s : Bytes) → begins (b'<' ∷ s) (codes "/*") ≡ false
unfolding to_lower
not_comment s = begins-other b'<' b'/' s (codes "*") (omega arith) (omega arith) (omega arith)

not_hash : (s : Bytes) → begins (b'<' ∷ s) (codes "#") ≡ false
unfolding to_lower
not_hash s = begins-other b'<' b'#' s [] (omega arith) (omega arith) (omega arith)

not_slashes : (s : Bytes) → begins (b'<' ∷ s) (codes "//") ≡ false
unfolding to_lower
not_slashes s = begins-other b'<' b'/' s (codes "/") (omega arith) (omega arith) (omega arith)

key-no_slash : (s : Bytes) → IsKey s → begins s (codes "/") ≡ false
key-no_slash [] h = absurd (h.0 refl)
key-no_slash (c ∷ s) h = key-begins c b'/' s [] h.1.0 refl (omega arith) refl

-- `Starts` of the name
name-start : (s : Bytes) → FirstOutside spaces s → Starts b' ' s
unfolding contains_char
name-start [] h = tt
name-start (c ∷ s) h = ground (arith, h)

LastOutside-name : (tag name : Bytes) → IsBlockName name → LastOutside spaces (tag ++ b' ' ∷ name)
LastOutside-name tag name h =
    LastOutside-append spaces tag (b' ' ∷ name) (λ e. cc)
      (LastOutside-append spaces (b' ' ∷ []) name h.0 h.3)

FirstOutside-key : (tag s : Bytes) → IsKey tag → FirstOutside spaces (tag ++ s)
FirstOutside-key [] s h = absurd (h.0 refl)
FirstOutside-key (c ∷ tag) s h = key-FirstOutside (c ∷ tag) h.1

trim-key : (tag : Bytes) → IsKey tag → trim spaces tag ≡ tag
trim-key tag h = trim-clean spaces tag (key-FirstOutside tag h.1) (key-LastOutside tag h.1)

slash-Lacks : (tag : Bytes) → IsKey tag → Lacks b' ' (b'/' ∷ tag)
slash-Lacks tag h = (omega arith, key-Lacks b' ' tag refl h.1)

trim-slash : (tag : Bytes) → IsKey tag → trim spaces (b'/' ∷ tag) ≡ b'/' ∷ tag
unfolding contains_char
trim-slash tag h =
    trim-clean spaces (b'/' ∷ tag) refl
      (LastOutside-append spaces (b'/' ∷ []) tag h.0 (key-LastOutside tag h.1))

trim_nil : trim spaces [] ≡ []
unfolding trim
trim_nil = refl

module _ (st : ParseState) (plain : st.commented ≡ false) where
  trimmed-tag : (s : Bytes) → trimmed_line st (b'<' ∷ s ++ b'>' ∷ []) ≡ tag_line st (trim spaces s)
  unfolding trimmed_line left_chomp
  trimmed-tag s =
      rw
        (
          plain,
          not_comment (s ++ b'>' ∷ []),
          not_hash (s ++ b'>' ∷ []),
          not_slashes (s ++ b'>' ∷ []),
          opens (s ++ b'>' ∷ []),
          ends_with-last (b'<' ∷ s) b'>',
          right_chomp-last s b'>',
        )
        refl

  tag_line-open :
      (tag name : Bytes)
      → IsKey tag
      → IsBlockName name
      → tag_line st (tag ++ b' ' ∷ name) ≡ open_tag st tag name
  unfolding tag_line tag_parts
  tag_line-open tag name h k =
      let word = key-Lacks b' ' tag refl h.1 in
      let start = name-start name k.2 in
      ap₂ (tag_parts st)
        (ap (λ t. trim_prefix (codes "/") (trim spaces t))
            (token-first b' ' (omega arith) tag name word h.0)
          ∙ ap (trim_prefix (codes "/")) (trim-key tag h)
          ∙ trim_prefix-absent (codes "/") tag (key-no_slash tag h))
        (ap (trim spaces) (
            token-next b' ' (omega arith) 0 true tag name word h.0 start
            ∙ token-rest b' ' (omega arith) name start)
          ∙ trim-clean spaces name k.2 k.3)

  tag_line-close : (tag : Bytes) → IsKey tag → tag_line st (b'/' ∷ tag) ≡ close_tag st tag []
  unfolding tag_line tag_parts
  tag_line-close tag h =
      let word = slash-Lacks tag h in
      ap₂ (tag_parts st)
        (ap (λ t. trim_prefix (codes "/") (trim spaces t))
            (token-only b' ' (omega arith) (b'/' ∷ tag) word)
          ∙ ap (trim_prefix (codes "/")) (trim-slash tag h)
          ∙ trim_prefix-append (codes "/") tag)
        (ap (trim spaces) (token-last b' ' (omega arith) 0 true (b'/' ∷ tag) word) ∙ trim_nil)

  pub trimmed-open :
      (tag name : Bytes)
      → IsKey tag
      → IsBlockName name
      → trimmed_line st (open_text tag name) ≡ open_tag st tag name
  trimmed-open tag name h k =
      ap (λ s. trimmed_line st (b'<' ∷ s)) (sym (append_assoc tag (b' ' ∷ name) (b'>' ∷ [])))
      ∙ trimmed-tag (tag ++ b' ' ∷ name)
      ∙ ap (tag_line st) (
          trim-clean spaces (tag ++ b' ' ∷ name) (FirstOutside-key tag (b' ' ∷ name) h)
            (LastOutside-name tag name k))
      ∙ tag_line-open tag name h k

  pub trimmed-close :
      (tag : Bytes) → IsKey tag → trimmed_line st (close_text tag) ≡ close_tag st tag []
  trimmed-close tag h =
      trimmed-tag (b'/' ∷ tag) ∙ ap (tag_line st) (trim-slash tag h) ∙ tag_line-close tag h
