-- ===== src/Config/Lines.antt =====
-- What the trims and the tests of `Parse` make of a line that `Write` wrote.
use znc_playground.Config.Parse.{ParseState, spaces, line_ends, begins, trimmed_line, read_line}
use znc_playground.Config.Write.{remove_char, single_line, tabs, line_of}
use znc_playground.Prelude.{
  ℕ, zero, suc, ◌≡◌, ◌≢◌, refl, ap, ◌∙◌, Bool, true, false, [], ◌∷◌, ◌++◌, append_assoc, length,
  length-append, take, drop, take-length-append, drop-length-append, Bytes, arith,
}
use znc_playground.Text.Compare.CStr.{c_str-Lacks}
use znc_playground.Text.Compare.Prefix.{equals_refl}
use znc_playground.Text.Compare.{
  c_str, equals, insensitive, left, right, starts_with, ends_with, right_chomp,
}
use znc_playground.Text.Ctype.{to_lower}
use znc_playground.Text.Split.{Lacks, Lacks-append}
use znc_playground.Text.Trim.Clean.{FirstOutside, LastOutside, trim_left-FirstOutside}
use znc_playground.Text.Trim.{contains_char, keep_right, trim_left, trim_right}

-- A text that stands in one line: no NUL, no line feed and no carriage return
abbrev pub IsLine : Bytes → Type 0
IsLine s = Lacks 0 s × Lacks 10 s × Lacks 13 s

pub IsLine-append : (s t : Bytes) → IsLine s → IsLine t → IsLine (s ++ t)
IsLine-append s t h k =
    (Lacks-append 0 s t h.0 k.0, Lacks-append 10 s t h.1 k.1, Lacks-append 13 s t h.2 k.2)

remove_char-Lacks : (c : ℕ) (s : Bytes) → Lacks c s → remove_char c s ≡ s
unfolding remove_char
remove_char-Lacks c [] h = refl
remove_char-Lacks c (x ∷ s) h = let (n, hs) = h in ground (arith, remove_char-Lacks c s hs)

single_line-IsLine : (s : Bytes) → IsLine s → single_line s ≡ s
unfolding single_line
single_line-IsLine s h =
    ap (λ t. remove_char 10 (c_str (remove_char 13 t))) (c_str-Lacks s h.0)
    ∙ ap (λ t. remove_char 10 (c_str t)) (remove_char-Lacks 13 s h.2)
    ∙ ap (remove_char 10) (c_str-Lacks s h.0)
    ∙ remove_char-Lacks 10 s h.1

tabs-IsLine : (n : ℕ) → IsLine (tabs n)
tabs-IsLine zero = (tt, tt, tt)
tabs-IsLine (suc n) =
    let h = tabs-IsLine n in ((omega arith, h.0), (omega arith, h.1), (omega arith, h.2))

trim_left-tabs : (n : ℕ) (s : Bytes) → FirstOutside spaces s → trim_left spaces (tabs n ++ s) ≡ s
unfolding trim_left contains_char
trim_left-tabs zero s h = trim_left-FirstOutside spaces s h
trim_left-tabs (suc n) s h = trim_left-tabs n s h

keep_right-cons : (b : Bool) (c d : ℕ) (s : Bytes) → keep_right b c (d ∷ s) ≡ c ∷ d ∷ s
keep_right-cons true c d s = refl
keep_right-cons false c d s = refl

pub trim_right-last :
    (set s : Bytes) (c : ℕ)
    → contains_char set c ≡ true
    → LastOutside set s
    → trim_right set (s ++ c ∷ []) ≡ s
unfolding trim_right
trim_right-last set [] c h k = rw h refl
trim_right-last set (a ∷ []) c h k = rw (h, k) refl
trim_right-last set (a ∷ b ∷ s) c h k =
    ap (keep_right (contains_char set a) a) (trim_right-last set (b ∷ s) c h k)
    ∙ keep_right-cons (contains_char set a) a b s

LastOutside-line : (s : Bytes) → IsLine s → LastOutside line_ends s
unfolding contains_char
LastOutside-line [] h = tt
LastOutside-line (c ∷ []) h = let a = h.1.0 in let b = h.2.0 in ground arith
LastOutside-line (c ∷ d ∷ s) h = LastOutside-line (d ∷ s) (h.0.1, h.1.1, h.2.1)

FirstOutside-ne : (s t : Bytes) → s ≢ [] → FirstOutside spaces s → FirstOutside spaces (s ++ t)
FirstOutside-ne [] t n h = absurd (n refl)
FirstOutside-ne (c ∷ s) t n h = h

end_of_line : contains_char line_ends 10 ≡ true
unfolding contains_char
end_of_line = refl

-- `Parse` reads the text of an indented line without the indentation and the end of the line.
pub read_line-line_of :
    (st : ParseState) (n : ℕ) (s : Bytes)
    → IsLine s
    → s ≢ []
    → FirstOutside spaces s
    → read_line st (line_of (tabs n ++ s)) ≡ trimmed_line st s
unfolding read_line
read_line-line_of st n s h some first =
    ap (λ t. trimmed_line st (trim_right line_ends (trim_left spaces (t ++ 10 ∷ []))))
      (single_line-IsLine (tabs n ++ s) (IsLine-append (tabs n) s (tabs-IsLine n) h))
    ∙ ap (λ t. trimmed_line st (trim_right line_ends (trim_left spaces t)))
        (append_assoc (tabs n) s (10 ∷ []))
    ∙ ap (λ t. trimmed_line st (trim_right line_ends t))
        (trim_left-tabs n (s ++ 10 ∷ []) (FirstOutside-ne s (10 ∷ []) some first))
    ∙ ap (trimmed_line st) (trim_right-last line_ends s 10 end_of_line (LastOutside-line s h))

left-cons : (n c : ℕ) (s : Bytes) → left (suc n) (c ∷ s) ≡ c ∷ left n s
unfolding left
left-cons n c s = ground arith

-- A text does not begin with a prefix that has another first character.
pub begins-other :
    (c d : ℕ) (s p : Bytes)
    → c ≢ 0
    → d ≢ 0
    → to_lower c ≢ to_lower d
    → begins (c ∷ s) (d ∷ p) ≡ false
unfolding starts_with equals
begins-other c d s p h k n =
    ap (λ t. equals insensitive t (d ∷ p)) (left-cons (length p) c s) ∙ ground arith

right-last : (s : Bytes) (c : ℕ) → right 1 (s ++ c ∷ []) ≡ c ∷ []
unfolding right
right-last s c =
    ap (λ n. drop n (s ++ c ∷ [])) (ground (arith, length-append s (c ∷ [])))
    ∙ drop-length-append s (c ∷ [])

pub ends_with-last : (s : Bytes) (c : ℕ) → ends_with insensitive (s ++ c ∷ []) (c ∷ []) ≡ true
unfolding ends_with
ends_with-last s c =
    ap (λ t. equals insensitive t (c ∷ [])) (right-last s c) ∙ equals_refl insensitive (c ∷ [])

pub right_chomp-last : (s : Bytes) (c : ℕ) → right_chomp 1 (s ++ c ∷ []) ≡ s
unfolding right_chomp
right_chomp-last [] c = refl
right_chomp-last (x ∷ s) c =
    let long : length (s ++ c ∷ []) ≡ suc (length s) = omega (arith, length-append s (c ∷ [])) in
    ap (λ n. take n (x ∷ (s ++ c ∷ []))) long ∙ take-length-append (x ∷ s) (c ∷ [])
