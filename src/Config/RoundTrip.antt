-- ===== src/Config/RoundTrip.antt =====
-- `Parse` on the lines that `Write` writes for a configuration, with the blocks in it.
use znc_playground.Config.Defs.{
  Config, config, Blocks, nil, block, empty_config, join_blocks, add_sub_config,
}
use znc_playground.Config.Entries.{IsKey, key-lower}
use znc_playground.Config.Lines.{IsLine, IsLine-append, read_line-line_of}
use znc_playground.Config.Parse.{
  closed, ok, ParseState, Open, spaces, read_line, parse_lines, parse_config, finish_parse,
  trimmed_line, open_tag, close_tag,
}
use znc_playground.Config.Tags.{open_text, close_text, IsBlockName, trimmed-open, trimmed-close}
use znc_playground.Config.Write.{tabs, line_of, write_entries, write_config, write_blocks}
use znc_playground.Prelude.{
  ℕ, ◌+◌, ◌≡◌, ◌≢◌, refl, ap, sym, ◌∙◌, true, List, [], ◌∷◌, ◌++◌, append_assoc, append-nil, Bytes,
  codes, arith,
}
use znc_playground.StringMap.{StringMap}
use znc_playground.Text.Compare.Prefix.{equals_refl}
use znc_playground.Text.Compare.{insensitive, starts_with}
use znc_playground.Text.Trim.Clean.{FirstOutside}
use znc_playground.Text.Trim.{contains_char, trim_left, trim_right}
use znc_playground.Config.Values.{at, parse_lines-step, key-IsLine, parse-entries}
use znc_playground.Config.Order.{
  IsWritable, AreBlocks, IsOrdered, IsBehind, IsOrdered-IsBehind, add_block-IsBehind,
  has_block-IsBehind, join-nil, join_assoc,
}

blank_line : (c : Config) (stack : List Open) → read_line (at c stack) (10 ∷ []) ≡ ok (at c stack)
unfolding read_line trimmed_line trim_left trim_right starts_with
blank_line c stack = refl

open_IsLine : IsLine (codes "<")
open_IsLine = (omega arith, omega arith, omega arith)

space_IsLine : IsLine (codes " ")
space_IsLine = (omega arith, omega arith, omega arith)

close_IsLine : IsLine (codes ">")
close_IsLine = (omega arith, omega arith, omega arith)

slash_IsLine : IsLine (codes "</")
slash_IsLine = (omega arith, omega arith, omega arith)

open_first : FirstOutside spaces (codes "<")
unfolding contains_char
open_first = refl

slash_first : FirstOutside spaces (codes "</")
unfolding contains_char
slash_first = refl

open_tag-some :
    (st : ParseState) (tag name : Bytes)
    → IsKey tag
    → name ≢ []
    → open_tag st tag name
      ≡ ok (record st {
        active = empty_config;
        stack = record { tag = tag; name = name; around = st.active } ∷ st.stack;
      })
unfolding open_tag
open_tag-some st tag [] h n = absurd (n refl)
open_tag-some st tag (c ∷ name) h n =
    ap
      (λ t. ok (record st {
        active = empty_config;
        stack = record { tag = t; name = c ∷ name; around = st.active } ∷ st.stack;
      }))
      (key-lower tag h.1)

add_sub_config-IsBehind :
    (tag name : Bytes) (c : Config) (es : StringMap (List Bytes)) (old : Blocks)
    → IsBehind tag name old
    → add_sub_config tag name c (config es old)
      ≡ (config es (join_blocks old (block tag name c nil)), true)
unfolding add_sub_config
add_sub_config-IsBehind tag name c es old h =
    rw (has_block-IsBehind tag name old h, add_block-IsBehind tag name c old h) refl

close_tag-some :
    (tag name : Bytes) (c : Config) (es : StringMap (List Bytes)) (old : Blocks) (stack : List Open)
    → IsKey tag
    → IsBehind tag name old
    → close_tag (at c (record { tag = tag; name = name; around = config es old } ∷ stack)) tag []
      ≡ ok (at (config es (join_blocks old (block tag name c nil))) stack)
unfolding close_tag
close_tag-some tag name c es old stack h k = rw (equals_refl insensitive tag) (
    ap (λ t. closed stack (add_sub_config t name c (config es old))) (key-lower tag h.1)
    ∙ ap (closed stack) (add_sub_config-IsBehind tag name c es old k))

-- The line that opens a block
read_line-open :
    (m : ℕ) (tag name : Bytes) (c : Config) (stack : List Open)
    → IsKey tag
    → IsBlockName name
    → read_line (at c stack) (line_of (tabs m ++ open_text tag name))
      ≡ ok (at empty_config (record { tag = tag; name = name; around = c } ∷ stack))
read_line-open m tag name c stack h k =
    read_line-line_of (at c stack) m (open_text tag name)
      (IsLine-append (codes "<") (tag ++ (codes " " ++ (name ++ codes ">"))) open_IsLine (
        IsLine-append tag (codes " " ++ (name ++ codes ">")) (key-IsLine tag h) (
          IsLine-append (codes " ") (name ++ codes ">") space_IsLine
            (IsLine-append name (codes ">") k.1 close_IsLine))))
      (λ e. cc) open_first
    ∙ trimmed-open (at c stack) refl tag name h k
    ∙ open_tag-some (at c stack) tag name h k.0

-- The line that closes it
read_line-close :
    (m : ℕ) (tag name : Bytes) (c : Config) (es : StringMap (List Bytes)) (old : Blocks)
    (stack : List Open)
    → IsKey tag
    → IsBehind tag name old
    → read_line
        (at c (record { tag = tag; name = name; around = config es old } ∷ stack))
        (line_of (tabs m ++ close_text tag))
      ≡ ok (at (config es (join_blocks old (block tag name c nil))) stack)
read_line-close m tag name c es old stack h k =
    let st = at c (record { tag = tag; name = name; around = config es old } ∷ stack) in
    read_line-line_of st m (close_text tag)
      (IsLine-append (codes "</") (tag ++ codes ">") slash_IsLine
        (IsLine-append tag (codes ">") (key-IsLine tag h) close_IsLine))
      (λ e. cc) slash_first
    ∙ trimmed-close st refl tag h
    ∙ close_tag-some tag name c es old stack h k

mutual
  unfolding write_config write_blocks join_blocks

  parse-config :
      (n : ℕ) (c : Config) (stack : List Open) (rest : List Bytes)
      → IsWritable c
      → parse_lines (at empty_config stack) (write_config n c ++ rest)
        ≡ parse_lines (at c stack) rest
  parse-config n (config es bs) stack rest h =
      ap (parse_lines (at empty_config stack))
        (append_assoc (write_entries n es) (write_blocks n bs) rest)
      ∙ parse-entries n es [] nil stack (write_blocks n bs ++ rest) h.0 h.1
      ∙ parse-blocks n bs nil es stack rest h.2 h.3

  parse-blocks :
      (n : ℕ) (bs old : Blocks) (es : StringMap (List Bytes)) (stack : List Open)
      (rest : List Bytes)
      → AreBlocks bs
      → IsOrdered (join_blocks old bs)
      → parse_lines (at (config es old) stack) (write_blocks n bs ++ rest)
        ≡ parse_lines (at (config es (join_blocks old bs)) stack) rest
  parse-blocks n nil old es stack rest h ordered =
      ap (λ b. parse_lines (at (config es b) stack) rest) (sym (join-nil old))
  parse-blocks n (block t nm c bs) old es stack rest h ordered =
      let o : Open = record { tag = t; name = nm; around = config es old } in
      let closing = line_of (tabs n ++ close_text t) in
      let rest' = write_blocks n bs ++ rest in
      let joined = join_assoc old t nm c bs in
      parse_lines-step _ _ _ _ (blank_line (config es old) stack)
      ∙ parse_lines-step _ _ _ _ (read_line-open n t nm (config es old) stack h.0 h.1)
      ∙ ap (parse_lines (at empty_config (o ∷ stack)))
          (append_assoc (write_config (n + 1) c) (closing ∷ write_blocks n bs) rest)
      ∙ parse-config (n + 1) c (o ∷ stack) (closing ∷ rest') h.2
      ∙ parse_lines-step _ _ _ rest'
          (read_line-close n t nm c es old stack h.0 (IsOrdered-IsBehind t nm old c bs ordered))
      ∙ parse-blocks n bs (join_blocks old (block t nm c nil)) es stack rest h.3 (rw joined ordered)
      ∙ ap (λ b. parse_lines (at (config es b) stack) rest) joined

-- A configuration has its entries and its blocks in the order of their keys, none twice, and a value at
-- least in each entry. Names of entries and tags of blocks are not empty and hold no byte up to the
-- space, no upper case letter and none of `=`, `<`, `>`, `#` and `/`. Values and names of blocks are not
-- empty and hold no NUL, line feed or carriage return, and names of blocks do not begin or end with a
-- space or a tab. `Write` writes it as lines from which `Parse` reads it again.
pub parse_config-write_config : (c : Config) → IsWritable c → parse_config (write_config 0 c) ≡ ok c
unfolding parse_config parse_lines finish_parse
parse_config-write_config c h =
    ap (parse_lines (at empty_config [])) (sym (append-nil (write_config 0 c)))
    ∙ parse-config 0 c [] [] h
