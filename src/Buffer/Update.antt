-- ===== src/Buffer/Update.antt =====
-- `UpdateLine` and `UpdateExactLine`: a second call with the same line changes nothing.
use znc_playground.Buffer.Defs.{
  Buffer, BufLine, add_line, update_line, update_exact_line, has_command, replace_command,
  has_equal, message_equals, params_eq, erase_while_full, update_exact_line_text, message_of_texts,
}
use znc_playground.Message.Parse.{parse_line}
use znc_playground.Nick.{empty_nick}
use znc_playground.Message.{Message}
use znc_playground.Nick
use znc_playground.Prelude.{
  ℕ, ◌≡◌, ◌≢◌, refl, ap, sym, ◌∙◌, true, false, List, [], ◌∷◌, ◌++◌, arith, ◌==◌, Bool-cases, ◌⊎◌,
  inl, inr, Bytes, bytes_eq_iff,
}
use znc_playground.Text.Compare.Prefix.{equals_refl}
use znc_playground.Text.Compare.{equals, insensitive}

params_eq_refl : (ps : List Bytes) → params_eq ps ps ≡ true
unfolding params_eq
params_eq_refl [] = refl
params_eq_refl (p ∷ ps) = ground (arith, (bytes_eq_iff p p).1 refl, params_eq_refl ps)

message_equals_refl : (m : Message) → message_equals m m ≡ true
unfolding message_equals Nick.nick_equals
message_equals_refl m = ground (
  arith,
  equals_refl insensitive m.nick.nick,
  equals_refl insensitive m.command,
  params_eq_refl m.params,
)

has_command-append :
    (command : Bytes) (ls : List BufLine) (l : BufLine)
    → equals insensitive l.format.command command ≡ true
    → has_command command (ls ++ l ∷ []) ≡ true
unfolding has_command
has_command-append command [] l h = ground arith
has_command-append command (x ∷ ls) l h = ground (arith, has_command-append command ls l h)

has_command-replace :
    (command : Bytes) (new : BufLine) (ls : List BufLine)
    → equals insensitive new.format.command command ≡ true
    → has_command command ls ≡ true
    → has_command command (replace_command command new ls) ≡ true
unfolding has_command replace_command
has_command-replace command new [] h e = ground arith
has_command-replace command new (l ∷ ls) h e = ground (arith, has_command-replace command new ls h)

replace-replace :
    (command : Bytes) (new : BufLine) (ls : List BufLine)
    → equals insensitive new.format.command command ≡ true
    → replace_command command new (replace_command command new ls) ≡ replace_command command new ls
unfolding replace_command
replace-replace command new [] h = refl
replace-replace command new (l ∷ ls) h = ground (arith, replace-replace command new ls h)

erase-has_command :
    (n : ℕ) (command : Bytes) (ls : List BufLine)
    → has_command command ls ≡ false
    → has_command command (erase_while_full n ls) ≡ false
unfolding erase_while_full has_command
erase-has_command n command [] h = refl
erase-has_command n command (l ∷ ls) h = ground (arith, erase-has_command n command ls)

replace-last :
    (command : Bytes) (new : BufLine) (ls : List BufLine)
    → has_command command ls ≡ false
    → replace_command command new (ls ++ new ∷ []) ≡ ls ++ new ∷ []
unfolding replace_command has_command
replace-last command new [] h = ground arith
replace-last command new (l ∷ ls) h = ground (arith, replace-last command new ls)

abbrev line_of : Message → Bytes → BufLine
line_of format text = record { format = format; text = text }

-- The two outcomes of `AddLine`
add_line_cases :
    (b : Buffer) (format : Message) (text : Bytes)
    → ((b.line_count ≡ 0) × (add_line b format text ≡ (b, 0)))
      ⊎ ((b.line_count ≢ 0)
          × ((add_line b format text).0 ≡ record b {
            lines = erase_while_full b.line_count b.lines ++ line_of format text ∷ [];
          }))
unfolding add_line
add_line_cases b format text = elim (Bool-cases (b.line_count == 0)) [
  | inl e ↦ inl (ground arith, rw e)
  | inr e ↦ inr (ground arith, rw e)
]

module _ (b : Buffer) (format : Message) (text : Bytes) where
  update_line-found :
      (command : Bytes)
      → has_command command b.lines ≡ true
      → (update_line b command format text).0
        ≡ record b { lines = replace_command command (line_of format text) b.lines }
  unfolding update_line
  update_line-found command h = rw h

  update_line-missing :
      (command : Bytes)
      → has_command command b.lines ≡ false
      → update_line b command format text ≡ add_line b format text
  unfolding update_line
  update_line-missing command h = rw h

-- Where the line that is written has the command that is looked for, `UpdateLine` finds it the next
-- time: a second call leaves the buffer as the first one left it.
pub update_line_twice :
    (b : Buffer) (command : Bytes) (format : Message) (text : Bytes)
    → equals insensitive format.command command ≡ true
    → (update_line (update_line b command format text).0 command format text).0
      ≡ (update_line b command format text).0
update_line_twice b command format text h = elim (Bool-cases (has_command command b.lines)) [
  | inl found ↦ rw (update_line-found b format text command found) (
      update_line-found _ format text command
        (has_command-replace command (line_of format text) b.lines h found)
      ∙ ap (λ ls. record b { lines = ls })
          (replace-replace command (line_of format text) b.lines h))
  | inr missing ↦
      rw (update_line-missing b format text command missing) (elim (add_line_cases b format text) [
        | inl (z, e) ↦ rw e (ap (λ r. r.0) (update_line-missing b format text command missing ∙ e))
        | inr (n, e) ↦
            let kept = erase_while_full b.line_count b.lines in
            rw e (
              update_line-found _ format text command
                (has_command-append command kept (line_of format text) h)
              ∙ ap (λ ls. record b { lines = ls })
                  (replace-last command (line_of format text) kept
                    (erase-has_command b.line_count command b.lines missing)))
      ])
]

has_equal-append :
    (format : Message) (text : Bytes) (ls : List BufLine)
    → has_equal format (ls ++ line_of format text ∷ []) ≡ true
unfolding has_equal
has_equal-append format text [] = ground (arith, message_equals_refl format)
has_equal-append format text (l ∷ ls) = ground (arith, has_equal-append format text ls)

module _ (b : Buffer) (format : Message) (text : Bytes) where
  update_exact_line-missing :
      has_equal format b.lines ≡ false → update_exact_line b format text ≡ add_line b format text
  unfolding update_exact_line
  update_exact_line-missing h = rw h

  update_exact_line-found :
      has_equal format b.lines ≡ true → (update_exact_line b format text).0 ≡ b
  unfolding update_exact_line
  update_exact_line-found h = rw h

-- A second `UpdateExactLine` with the same line leaves the buffer as the first one left it.
pub update_exact_line_twice :
    (b : Buffer) (format : Message) (text : Bytes)
    → (update_exact_line (update_exact_line b format text).0 format text).0
      ≡ (update_exact_line b format text).0
update_exact_line_twice b format text = elim (Bool-cases (has_equal format b.lines)) [
  | inl found ↦
      ap (λ c. (update_exact_line c format text).0) (update_exact_line-found b format text found)
  | inr missing ↦
      rw (update_exact_line-missing b format text missing) (elim (add_line_cases b format text) [
        | inl (z, e) ↦ rw e (ap (λ r. r.0) (update_exact_line-missing b format text missing ∙ e))
        | inr (n, e) ↦ rw e (
            update_exact_line-found _ format text
              (has_equal-append format text (erase_while_full b.line_count b.lines)))
      ])
]

-- The command of the last line
abbrev last_command : List BufLine → Bytes
last_command [] = []
last_command (l ∷ []) = l.format.command
last_command (l ∷ k ∷ ls) = last_command (k ∷ ls)

last_command-append :
    (ls : List BufLine) (l : BufLine) → last_command (ls ++ l ∷ []) ≡ l.format.command
last_command-append [] l = refl
last_command-append (x ∷ []) l = refl
last_command-append (x ∷ y ∷ ls) l = last_command-append (y ∷ ls) l

last_command-update :
    (b : Buffer) (format : Message) (text : Bytes)
    → b.line_count ≢ 0
    → has_equal format b.lines ≡ false
    → last_command (update_exact_line b format text).0.lines ≡ format.command
last_command-update b format text n h =
    rw (update_exact_line-missing b format text h) (elim (add_line_cases b format text) [
      | inl (z, e) ↦ absurd (n z)
      | inr (k, e) ↦
          ap (λ (c : Buffer). last_command c.lines) e
          ∙ last_command-append (erase_while_full b.line_count b.lines) (line_of format text)
    ])

-- The overload of `UpdateExactLine` for two texts does not do what the one for a message does: if
-- neither finds its line in a buffer that can hold one, and the text is not the command of the
-- format, they leave different buffers.
pub update_exact_line_text_ne :
    (b : Buffer) (format text : Bytes)
    → b.line_count ≢ 0
    → has_equal (parse_line empty_nick format) b.lines ≡ false
    → has_equal (message_of_texts format text) b.lines ≡ false
    → (parse_line empty_nick format).command ≢ text
    → (update_exact_line_text b format text).0
      ≢ (update_exact_line b (parse_line empty_nick format) text).0
unfolding update_exact_line_text
update_exact_line_text_ne b format text n h k d e = d (
    sym (last_command-update b (parse_line empty_nick format) text n h)
    ∙ sym (ap (λ (c : Buffer). last_command c.lines) e)
    ∙ last_command-update b (message_of_texts format text) [] n k)
