-- ===== src/Config/Values.antt =====
-- `Parse` on the lines that `Write` writes for the names and values of a configuration.
use znc_playground.Config.Defs.{Config, config, Blocks, push_value, push_entry}
use znc_playground.Config.Entries.{
  IsKey, entry_text, trimmed-entry, entry_line-entry_text, key-Lacks, key-FirstOutside,
}
use znc_playground.Config.Lines.{IsLine, IsLine-append, read_line-line_of}
use znc_playground.Config.Parse.{
  ok, ◌>>=◌, ParseState, Open, spaces, read_line, parse_lines, trimmed_line, entry_line,
}
use znc_playground.Config.Write.{tabs, line_of, write_values, write_entries}
use znc_playground.Prelude.{
  ℕ, ◌≡◌, ◌≢◌, refl, ap, sym, ◌∙◌, false, List, [], ◌∷◌, ◌++◌, append_assoc, append-nil, All, Bytes,
  codes, arith,
}
use znc_playground.StringMap.{
  StringMap, IsSorted, IsAbove, find-IsAbove, find-last, insert-IsAbove, insert-replace,
  IsSorted-IsAbove,
}
use znc_playground.Text.Trim.Clean.{FirstOutside}

-- Inside the blocks of `stack`, outside a comment
abbrev pub at : Config → List Open → ParseState
at c stack = record { active = c; stack = stack; commented = false }

pub parse_lines-step :
    (st next : ParseState) (line : Bytes) (lines : List Bytes)
    → read_line st line ≡ ok next
    → parse_lines st (line ∷ lines) ≡ parse_lines next lines
unfolding parse_lines
parse_lines-step st next line lines h = ap (λ r. r >>= λ n. parse_lines n lines) h

abbrev pub IsValue : Bytes → Type 0
IsValue v = (v ≢ []) × IsLine v

pub key-IsLine : (name : Bytes) → IsKey name → IsLine name
key-IsLine name h =
    (key-Lacks 0 name refl h.1, key-Lacks 10 name refl h.1, key-Lacks 13 name refl h.1)

pub append-ne : (s t : Bytes) → s ≢ [] → (s ++ t) ≢ []
append-ne [] t n e = n refl
append-ne (c ∷ s) t n e = cc

pub key-first : (name t : Bytes) → IsKey name → FirstOutside spaces (name ++ t)
key-first [] t h = absurd (h.0 refl)
key-first (c ∷ name) t h = key-FirstOutside (c ∷ name) h.1

trimmed-key :
    (st : ParseState) (name t : Bytes)
    → st.commented ≡ false
    → IsKey name
    → trimmed_line st (name ++ t) ≡ entry_line st (name ++ t)
trimmed-key st [] t plain h = absurd (h.0 refl)
trimmed-key st (c ∷ name) t plain h = trimmed-entry st plain c (name ++ t) h.1.0

equals-IsLine : IsLine (codes " = ")
equals-IsLine = (omega arith, omega arith, omega arith)

-- A line of a value
read_line-value :
    (n : ℕ) (name value : Bytes) (c : Config) (stack : List Open)
    → IsKey name
    → IsValue value
    → read_line (at c stack) (line_of (tabs n ++ entry_text name value))
      ≡ ok (at (push_entry name value c) stack)
read_line-value n name value c stack h k =
    read_line-line_of (at c stack) n (entry_text name value)
      (IsLine-append name (codes " = " ++ value) (key-IsLine name h)
        (IsLine-append (codes " = ") value equals-IsLine k.1))
      (append-ne name (codes " = " ++ value) h.0) (key-first name (codes " = " ++ value) h)
    ∙ trimmed-key (at c stack) name (codes " = " ++ value) refl h
    ∙ entry_line-entry_text (at c stack) refl name value h k.0

push_value-first :
    (name value : Bytes) (es : StringMap (List Bytes))
    → IsAbove name es
    → push_value name value es ≡ es ++ (name, value ∷ []) ∷ []
unfolding push_value
push_value-first name value es h =
    rw (find-IsAbove name es h) (insert-IsAbove name (value ∷ []) es h)

push_value-more :
    (name value : Bytes) (us : List Bytes) (es : StringMap (List Bytes))
    → IsAbove name es
    → push_value name value (es ++ (name, us) ∷ []) ≡ es ++ (name, us ++ value ∷ []) ∷ []
unfolding push_value
push_value-more name value us es h =
    rw (find-last name es us h) (insert-replace name (us ++ value ∷ []) us es h)

parse-more_values :
    (n : ℕ) (name : Bytes) (us vs : List Bytes) (es : StringMap (List Bytes)) (bs : Blocks)
    (stack : List Open) (rest : List Bytes)
    → IsKey name
    → All IsValue vs
    → IsAbove name es
    → parse_lines (at (config (es ++ (name, us) ∷ []) bs) stack) (write_values n name vs ++ rest)
      ≡ parse_lines (at (config (es ++ (name, us ++ vs) ∷ []) bs) stack) rest
unfolding write_values push_entry
parse-more_values n name us [] es bs stack rest h k l = rw (append-nil us) refl
parse-more_values n name us (v ∷ vs) es bs stack rest h k l =
    parse_lines-step _ _ _ (write_values n name vs ++ rest)
      (read_line-value n name v (config (es ++ (name, us) ∷ []) bs) stack h k.0)
    ∙ ap (λ fs. parse_lines (at (config fs bs) stack) (write_values n name vs ++ rest))
        (push_value-more name v us es l)
    ∙ parse-more_values n name (us ++ v ∷ []) vs es bs stack rest h k.1 l
    ∙ ap (λ ws. parse_lines (at (config (es ++ (name, ws) ∷ []) bs) stack) rest)
        (append_assoc us (v ∷ []) vs)

-- Names and values that lines can hold
abbrev pub AreEntries : StringMap (List Bytes) → Type 0
AreEntries [] = Unit
AreEntries ((name, []) ∷ es) = ⊥
AreEntries ((name, v ∷ vs) ∷ es) = IsKey name × IsValue v × All IsValue vs × AreEntries es

pub parse-entries :
    (n : ℕ) (es old : StringMap (List Bytes)) (bs : Blocks) (stack : List Open) (rest : List Bytes)
    → AreEntries es
    → IsSorted (old ++ es)
    → parse_lines (at (config old bs) stack) (write_entries n es ++ rest)
      ≡ parse_lines (at (config (old ++ es) bs) stack) rest
unfolding write_entries write_values push_entry
parse-entries n [] old bs stack rest h sorted =
    ap (λ fs. parse_lines (at (config fs bs) stack) rest) (sym (append-nil old))
parse-entries n ((name, []) ∷ es) old bs stack rest h sorted = absurd h
parse-entries n ((name, v ∷ vs) ∷ es) old bs stack rest h sorted =
    let above = IsSorted-IsAbove name (v ∷ vs) old es sorted in
    let later = append_assoc old ((name, v ∷ vs) ∷ []) es in
    ap (parse_lines (at (config old bs) stack))
      (append_assoc (write_values n name (v ∷ vs)) (write_entries n es) rest)
    ∙ parse_lines-step _ _ _ (write_values n name vs ++ (write_entries n es ++ rest))
        (read_line-value n name v (config old bs) stack h.0 h.1)
    ∙ ap
        (λ fs.
          parse_lines (at (config fs bs) stack)
            (write_values n name vs ++ (write_entries n es ++ rest)))
        (push_value-first name v old above)
    ∙ parse-more_values n name (v ∷ []) vs old bs stack (write_entries n es ++ rest) h.0 h.2 above
    ∙ parse-entries n es (old ++ (name, v ∷ vs) ∷ []) bs stack rest h.3 (rw later sorted)
    ∙ ap (λ fs. parse_lines (at (config fs bs) stack) rest) later
