-- ===== src/Text/Format/Template.antt =====
-- What a template means, and that `NamedFormat` gives it.
use znc_playground.Prelude.{
  ℕ, ◌≡◌, ◌≢◌, refl, ap, sym, ◌∙◌, true, false, List, [], ◌∷◌, ◌++◌, append-nil, append_assoc, All,
  arith, if_elim, Bytes,
}
use znc_playground.StringMap.{StringMap, find}
use znc_playground.Text.Compare.CStr.{c_str-Lacks}
use znc_playground.Text.Escape.{
  escape_n, escape_n-flat, flat, is_special, write_named_fmt_lem, write_char, ascii, named_fmt,
}
use znc_playground.Text.Format.Defs.{
  FormatState, value_or_empty, read_outside, read_field, format_loop, named_format,
}
use znc_playground.Text.Split.{Lacks, Lacks-append}

-- A template in pieces: text, and fields that the map has the values of
pub data Piece : Type 0 where
  literal : Bytes → Piece
  field : Bytes → Piece

abbrev write_piece : Piece → Bytes
write_piece (literal t) = escape_n ascii named_fmt t
write_piece (field key) = b'{' ∷ escape_n ascii named_fmt key ++ b'}' ∷ []

abbrev pub write_pieces : List Piece → Bytes
write_pieces [] = []
write_pieces (p ∷ ps) = write_piece p ++ write_pieces ps

abbrev expand : StringMap Bytes → Piece → Bytes
expand values (literal t) = t
expand values (field key) = value_or_empty (find key values)

abbrev pub expand_all : StringMap Bytes → List Piece → Bytes
expand_all values [] = []
expand_all values (p ∷ ps) = expand values p ++ expand_all values ps

-- The text of a piece has no NUL.
abbrev pub IsText : Piece → Type 0
IsText (literal t) = Lacks 0 t
IsText (field key) = Lacks 0 key

-- Between two characters, outside a field or inside one
abbrev outside : Bytes → Bytes → FormatState
outside ret key = record { ret = ret; key = key; escape = false; param = false }

abbrev inside : Bytes → Bytes → FormatState
inside ret key = record { ret = ret; key = key; escape = false; param = true }

module _ (values : StringMap Bytes) where
  read_outside-plain :
      (ret key : Bytes) (c : ℕ)
      → is_special c ≡ false
      → read_outside (outside ret key) c ≡ outside (ret ++ c ∷ []) key
  unfolding read_outside
  read_outside-plain ret key c h = ground arith

  read_field-plain :
      (ret key : Bytes) (c : ℕ)
      → is_special c ≡ false
      → read_field values (inside ret key) c ≡ inside ret (key ++ c ∷ [])
  unfolding read_field
  read_field-plain ret key c h = ground arith

  outside-char :
      (ret key : Bytes) (c : ℕ) (rest : Bytes)
      → format_loop values (outside ret key) (write_char named_fmt c ++ rest)
        ≡ format_loop values (outside (ret ++ c ∷ []) key) rest
  unfolding format_loop read_outside
  outside-char ret key c rest = rw (write_named_fmt_lem c) (
      if_elim
        (λ t.
          format_loop values (outside ret key) (t ++ rest)
          ≡ format_loop values (outside (ret ++ c ∷ []) key) rest)
        (is_special c) _ _ (λ h. refl)
        (λ h. ap (λ f. format_loop values f rest) (read_outside-plain ret key c h)))

  inside-char :
      (ret key : Bytes) (c : ℕ) (rest : Bytes)
      → format_loop values (inside ret key) (write_char named_fmt c ++ rest)
        ≡ format_loop values (inside ret (key ++ c ∷ [])) rest
  unfolding format_loop read_field
  inside-char ret key c rest = rw (write_named_fmt_lem c) (
      if_elim
        (λ t.
          format_loop values (inside ret key) (t ++ rest)
          ≡ format_loop values (inside ret (key ++ c ∷ [])) rest)
        (is_special c) _ _ (λ h. refl)
        (λ h. ap (λ f. format_loop values f rest) (read_field-plain ret key c h)))

  outside-flat :
      (ret key s rest : Bytes)
      → format_loop values (outside ret key) (flat named_fmt s ++ rest)
        ≡ format_loop values (outside (ret ++ s) key) rest
  outside-flat ret key [] rest = rw (append-nil ret) refl
  outside-flat ret key (c ∷ s) rest =
      ap (format_loop values (outside ret key))
        (append_assoc (write_char named_fmt c) (flat named_fmt s) rest)
      ∙ outside-char ret key c (flat named_fmt s ++ rest)
      ∙ outside-flat (ret ++ c ∷ []) key s rest
      ∙ ap (λ r. format_loop values (outside r key) rest) (append_assoc ret (c ∷ []) s)

  inside-flat :
      (ret key s rest : Bytes)
      → format_loop values (inside ret key) (flat named_fmt s ++ rest)
        ≡ format_loop values (inside ret (key ++ s)) rest
  inside-flat ret key [] rest = rw (append-nil key) refl
  inside-flat ret key (c ∷ s) rest =
      ap (format_loop values (inside ret key))
        (append_assoc (write_char named_fmt c) (flat named_fmt s) rest)
      ∙ inside-char ret key c (flat named_fmt s ++ rest)
      ∙ inside-flat ret (key ++ c ∷ []) s rest
      ∙ ap (λ r. format_loop values (inside ret r) rest) (append_assoc key (c ∷ []) s)

  loop-open :
      (ret key s : Bytes)
      → format_loop values (outside ret key) (b'{' ∷ s) ≡ format_loop values (inside ret []) s
  unfolding format_loop read_outside
  loop-open ret key s = refl

  loop-close :
      (ret key s : Bytes)
      → format_loop values (inside ret key) (b'}' ∷ s)
        ≡ format_loop values (outside (ret ++ value_or_empty (find key values)) key) s
  unfolding format_loop read_field
  loop-close ret key s = refl

  -- The key that is left behind by a piece
  abbrev key_after : Bytes → Piece → Bytes
  key_after key (literal t) = key
  key_after key (field k) = k

  loop-write_piece :
      (ret key : Bytes) (p : Piece) (rest : Bytes)
      → format_loop values (outside ret key) (write_piece p ++ rest)
        ≡ format_loop values (outside (ret ++ expand values p) (key_after key p)) rest
  loop-write_piece ret key (literal t) rest =
      rw (escape_n-flat named_fmt t (λ e. cc)) (outside-flat ret key t rest)
  loop-write_piece ret key (field k) rest = rw (escape_n-flat named_fmt k (λ e. cc)) (
      loop-open ret key _
      ∙ ap (format_loop values (inside ret [])) (append_assoc (flat named_fmt k) (b'}' ∷ []) rest)
      ∙ inside-flat ret [] k (b'}' ∷ rest)
      ∙ loop-close ret k rest)

  loop-write_pieces :
      (ret key : Bytes) (ps : List Piece)
      → (format_loop values (outside ret key) (write_pieces ps)).ret ≡ ret ++ expand_all values ps
  unfolding format_loop
  loop-write_pieces ret key [] = sym (append-nil ret)
  loop-write_pieces ret key (p ∷ ps) =
      ap (λ (f : FormatState). f.ret) (loop-write_piece ret key p (write_pieces ps))
      ∙ loop-write_pieces (ret ++ expand values p) (key_after key p) ps
      ∙ append_assoc ret (expand values p) (expand_all values ps)

write_char-Lacks : (c : ℕ) → c ≢ 0 → Lacks 0 (write_char named_fmt c)
write_char-Lacks c h =
    rw (write_named_fmt_lem c)
      (if_elim (Lacks 0) (is_special c) _ _ (λ e. (omega arith, (h, tt))) (λ e. (h, tt)))

flat-Lacks : (s : Bytes) → Lacks 0 s → Lacks 0 (flat named_fmt s)
flat-Lacks [] h = tt
flat-Lacks (c ∷ s) h =
    Lacks-append 0 (write_char named_fmt c) (flat named_fmt s) (write_char-Lacks c h.0)
      (flat-Lacks s h.1)

write_piece-Lacks : (p : Piece) → IsText p → Lacks 0 (write_piece p)
write_piece-Lacks (literal t) h = rw (escape_n-flat named_fmt t (λ e. cc)) (flat-Lacks t h)
write_piece-Lacks (field key) h = rw (escape_n-flat named_fmt key (λ e. cc)) (
  omega arith,
  Lacks-append 0 (flat named_fmt key) (b'}' ∷ []) (flat-Lacks key h) (omega arith, tt),
)

write_pieces-Lacks : (ps : List Piece) → All IsText ps → Lacks 0 (write_pieces ps)
write_pieces-Lacks [] h = tt
write_pieces-Lacks (p ∷ ps) h =
    Lacks-append 0 (write_piece p) (write_pieces ps) (write_piece-Lacks p h.0)
      (write_pieces-Lacks ps h.1)

-- A template of texts and fields without NUL, each escaped for a named format, gives the texts as they
-- are and for each field the value of the map, or nothing where the map has no such key.
pub named_format-write_pieces :
    (values : StringMap Bytes) (ps : List Piece)
    → All IsText ps
    → named_format values (write_pieces ps) ≡ expand_all values ps
unfolding named_format
named_format-write_pieces values ps h =
    ap (λ s. (format_loop values (outside [] []) s).ret)
      (c_str-Lacks (write_pieces ps) (write_pieces-Lacks ps h))
    ∙ loop-write_pieces values [] [] ps
