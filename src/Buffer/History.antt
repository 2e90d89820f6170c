-- ===== src/Buffer/History.antt =====
-- A buffer holds the newest lines of its history.
use znc_playground.Buffer.Defs.{
  Buffer, BufLine, add_line, set_line_count, erase_while_full, erase_while_over,
}
use znc_playground.Message.{Message}
use znc_playground.Prelude.{
  ℕ, zero, suc, ◌+◌, ◌-◌, ◌≤◌, ◌<◌, ◌≡◌, ◌≢◌, refl, ap, sym, ◌∙◌, Bool, ◌||◌, List, [], ◌∷◌, ◌++◌,
  arith, leb, ltb, ◌==◌, if◌then◌else◌, if_elim, Bytes, length, length-append, drop, length-drop,
  append_assoc, append-nil,
}

-- The last `n` elements of a list
abbrev pub last_n : ℕ → List BufLine → List BufLine
last_n n ls = drop (length ls - n) ls

abbrev pub IsBounded : Buffer → Type 0
IsBounded b = length b.lines ≤ b.line_count

module _ (l : BufLine) (ls : List BufLine) where
  last_n-fits : (n : ℕ) → suc (length ls) ≤ n → last_n n (l ∷ ls) ≡ l ∷ ls
  last_n-fits n h = let e : suc (length ls) - n ≡ 0 = omega arith in ap (λ k. drop k (l ∷ ls)) e

  last_n-over : (n : ℕ) → n < suc (length ls) → last_n n (l ∷ ls) ≡ last_n n ls
  last_n-over n h =
      let e : suc (length ls) - n ≡ suc (length ls - n) = omega arith in ap (λ k. drop k (l ∷ ls)) e

erase_while_over-last_n : (n : ℕ) (ls : List BufLine) → erase_while_over n ls ≡ last_n n ls
unfolding erase_while_over
erase_while_over-last_n n [] = ap (λ k. drop {A = BufLine} k []) (sym zero_sub)
  where
    zero_sub : 0 - n ≡ 0
    zero_sub = omega arith
erase_while_over-last_n n (l ∷ ls) =
    if_elim (λ t. t ≡ last_n n (l ∷ ls)) (ltb n (suc (length ls))) _ _
      (λ e. erase_while_over-last_n n ls ∙ sym (last_n-over l ls n (ground arith)))
      (λ e. sym (last_n-fits l ls n (ground arith)))

erase_while_full-over :
    (n : ℕ) (ls : List BufLine) → erase_while_full (suc n) ls ≡ erase_while_over n ls
unfolding erase_while_full erase_while_over
erase_while_full-over n [] = refl
erase_while_full-over n (l ∷ ls) = ground (arith, erase_while_full-over n ls)

drop-append : (k : ℕ) (xs ys : List BufLine) → k ≤ length xs → drop k (xs ++ ys) ≡ drop k xs ++ ys
drop-append zero xs ys h = refl
drop-append (suc k) [] ys h = absurd (omega arith)
drop-append (suc k) (x ∷ xs) ys h = drop-append k xs ys (omega arith)

last_n-append :
    (n : ℕ) (xs : List BufLine) (x : BufLine)
    → last_n (suc n) (xs ++ x ∷ []) ≡ last_n n xs ++ x ∷ []
last_n-append n xs x =
    ap (λ k. drop k (xs ++ x ∷ [])) e ∙ drop-append (length xs - n) xs (x ∷ []) (omega arith)
  where
    e : length (xs ++ x ∷ []) - suc n ≡ length xs - n
    e = omega (arith, length-append xs (x ∷ []))

drop-drop : (i j : ℕ) (xs : List BufLine) → drop i (drop j xs) ≡ drop (j + i) xs
drop-drop i zero xs = ap (λ k. drop k xs) (omega arith)
drop-drop i (suc j) [] = drop_nil i ∙ sym (drop_nil (suc j + i))
  where
    drop_nil : (k : ℕ) → drop {A = BufLine} k [] ≡ []
    drop_nil zero = refl
    drop_nil (suc k) = refl
drop-drop i (suc j) (x ∷ xs) = drop-drop i j xs ∙ ap (λ k. drop k (x ∷ xs)) next
  where
    next : suc (j + i) ≡ suc j + i
    next = omega arith

-- Keeping the last `n` of the last `m` is keeping the last of them, if `n` is at most `m`.
last_n-last_n : (n m : ℕ) (xs : List BufLine) → n ≤ m → last_n n (last_n m xs) ≡ last_n n xs
last_n-last_n n m xs h = drop-drop _ (length xs - m) xs ∙ ap (λ k. drop k xs) sum
  where
    sum : length xs - m + (length (drop (length xs - m) xs) - n) ≡ length xs - n
    sum = omega (arith, length-drop (length xs - m) xs)

last_n-merge : (n : ℕ) (xs ys : List BufLine) → last_n n (last_n n xs ++ ys) ≡ last_n n (xs ++ ys)
last_n-merge n xs ys =
    ap (last_n n) (sym (drop-append a xs ys (omega arith)))
    ∙ drop-drop _ a (xs ++ ys)
    ∙ ap (λ k. drop k (xs ++ ys)) sum
  where
    a : ℕ
    a = length xs - n

    sum : a + (length (drop a (xs ++ ys)) - n) ≡ length (xs ++ ys) - n
    sum = omega (arith, length-drop a (xs ++ ys), length-append xs ys)

length-last_n : (n : ℕ) (xs : List BufLine) → length (last_n n xs) ≤ n
length-last_n n xs = omega (arith, length-drop (length xs - n) xs)

last_n_zero : (xs : List BufLine) → last_n 0 xs ≡ []
last_n_zero xs = nil_of_length (last_n 0 xs) (omega (arith, length-last_n 0 xs))
  where
    nil_of_length : (ys : List BufLine) → length ys ≡ 0 → ys ≡ []
    nil_of_length [] h = refl
    nil_of_length (y ∷ ys) h = absurd (omega arith)

erase-append :
    (n : ℕ) (xs : List BufLine) (x : BufLine)
    → n ≢ 0
    → erase_while_full n xs ++ x ∷ [] ≡ last_n n (xs ++ x ∷ [])
erase-append zero xs x h = absurd (h refl)
erase-append (suc n) xs x h =
    ap (λ t. t ++ x ∷ []) (erase_while_full-over n xs ∙ erase_while_over-last_n n xs)
    ∙ sym (last_n-append n xs x)

abbrev line_of : Message → Bytes → BufLine
line_of format text = record { format = format; text = text }

-- A buffer of some size holds, after `AddLine`, the newest of its lines and the new one.
add_line-lines :
    (b : Buffer) (format : Message) (text : Bytes)
    → IsBounded b
    → (add_line b format text).0.lines ≡ last_n b.line_count (b.lines ++ line_of format text ∷ [])
unfolding add_line
add_line-lines b format text h =
    if_elim
      (λ (r : Buffer × ℕ). r.0.lines ≡ last_n b.line_count (b.lines ++ line_of format text ∷ []))
      (b.line_count == 0) _ _ (λ e. none_kept (ground arith))
      (λ e. erase-append b.line_count b.lines (line_of format text) (ground arith))
  where
    nil_of_length : (ls : List BufLine) → length ls ≤ 0 → ls ≡ []
    nil_of_length [] h = refl
    nil_of_length (l ∷ ls) h = absurd (omega arith)

    none_kept :
        b.line_count ≡ 0 → b.lines ≡ last_n b.line_count (b.lines ++ line_of format text ∷ [])
    none_kept e =
        nil_of_length b.lines (omega arith)
        ∙ sym (last_n_zero (b.lines ++ line_of format text ∷ []))
        ∙ ap (λ n. last_n n (b.lines ++ line_of format text ∷ [])) (sym e)

add_line-line_count :
    (b : Buffer) (format : Message) (text : Bytes)
    → (add_line b format text).0.line_count ≡ b.line_count
unfolding add_line
add_line-line_count b format text = ground arith

-- `AddLine` returns the number of lines, and keeps to the bound.
pub add_line-size :
    (b : Buffer) (format : Message) (text : Bytes)
    → IsBounded b
    → ((add_line b format text).1 ≡ length (add_line b format text).0.lines)
      × IsBounded (add_line b format text).0
add_line-size b format text h = (returned, bounded)
  where
    returned : (add_line b format text).1 ≡ length (add_line b format text).0.lines
    returned = unfold add_line in ground arith

    bounded : IsBounded (add_line b format text).0
    bounded =
        rw (add_line-lines b format text h, add_line-line_count b format text)
          (length-last_n b.line_count (b.lines ++ line_of format text ∷ []))

-- Lines added one after the other
abbrev pub History : Type 0
History = List (Message × Bytes)

unfoldable pub add_all : Buffer → History → Buffer
unfolding add_line
add_all b [] = b
add_all b ((format, text) ∷ later) = add_all (add_line b format text).0 later

abbrev pub history_lines : History → List BufLine
history_lines [] = []
history_lines ((format, text) ∷ later) = line_of format text ∷ history_lines later

-- A bounded buffer that gets the lines of a history holds the newest of its own lines and theirs, as
-- many as its line count allows; so a new buffer holds the newest lines of the history.
pub add_all-last_n :
    (b : Buffer) (later : History)
    → IsBounded b
    → (add_all b later).lines ≡ last_n b.line_count (b.lines ++ history_lines later)
unfolding add_all
add_all-last_n b [] h = sym (ap (last_n b.line_count) (append-nil b.lines) ∙ all_kept)
  where
    all_kept : last_n b.line_count b.lines ≡ b.lines
    all_kept = ap (λ k. drop k b.lines) (sub_zero h)
      where
        sub_zero : length b.lines ≤ b.line_count → length b.lines - b.line_count ≡ 0
        sub_zero h = omega arith
add_all-last_n b ((format, text) ∷ later) h =
    add_all-last_n (add_line b format text).0 later (add_line-size b format text h).1
    ∙ rw (add_line-line_count b format text, add_line-lines b format text h)
        (last_n-merge b.line_count (b.lines ++ line_of format text ∷ []) (history_lines later)
          ∙ ap (last_n b.line_count)
              (append_assoc b.lines (line_of format text ∷ []) (history_lines later)))

-- `SetLineCount` refuses a count above the allowed one unless it is forced, and then changes nothing;
-- otherwise the newest lines stay, and the buffer keeps to the new count.
pub set_line_count_lem :
    (max_size : ℕ) (b : Buffer) (n : ℕ) (force : Bool)
    → ((set_line_count max_size b n force).1 ≡ (force || leb n max_size))
      × ((set_line_count max_size b n force).0 ≡ (
          if force || leb n max_size
          then record { lines = last_n n b.lines; line_count = n }
          else b))
unfolding set_line_count
set_line_count_lem max_size b n force =
    rw (erase_while_over-last_n n b.lines) (ground arith, ground arith)
