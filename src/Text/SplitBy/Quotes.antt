-- ===== src/Text/SplitBy/Quotes.antt =====
-- What `QuoteSplit` gives for words in quotes.
use znc_playground.Prelude.{
  ℕ, zero, suc, ◌+◌, ◌<◌, ◌==◌, ◌≡◌, ◌≢◌, refl, ap, sym, ◌∙◌, true, false, List, [], ◌∷◌, ◌++◌,
  append_assoc, append-nil, All, Bytes, length, length-append, arith,
}
use znc_playground.Text.Compare.CStr.{c_str-Lacks}
use znc_playground.Text.Ctype.{to_lower}
use znc_playground.Text.Split.{Lacks, Lacks-append}
use znc_playground.Text.SplitBy.Defs.{quote_options, split_loop, pass_delims, quote_split}

-- Each word in quotes, with a space between them
abbrev pub quoted : List Bytes → Bytes
quoted [] = []
quoted (w ∷ []) = b'"' ∷ w ++ b'"' ∷ []
quoted (w ∷ v ∷ ws) = b'"' ∷ w ++ b'"' ∷ b' ' ∷ quoted (v ∷ ws)

-- A word that stands in quotes: it is not empty, and has no quote and no NUL.
abbrev pub IsQuotable : Bytes → Type 0
IsQuotable w = (w ≢ []) × Lacks b'"' w × Lacks 0 w

lower_quote : (c : ℕ) → c ≢ b'"' → (to_lower c == b'"') ≡ false
unfolding to_lower
lower_quote c h = ground arith

-- One round of the loop, in each of its branches for these options
opening :
    (fuel : ℕ) (part s : Bytes)
    → split_loop (suc fuel) quote_options false part (b'"' ∷ s)
      ≡ split_loop fuel quote_options true part s
unfolding split_loop
opening fuel part s = refl

closing :
    (fuel : ℕ) (part s : Bytes)
    → split_loop (suc fuel) quote_options true part (b'"' ∷ s)
      ≡ split_loop fuel quote_options false part s
unfolding split_loop
closing fuel part s = refl

inside :
    (fuel c : ℕ) (part s : Bytes)
    → c ≢ b'"'
    → split_loop (suc fuel) quote_options true part (c ∷ s)
      ≡ split_loop fuel quote_options true (part ++ c ∷ []) s
unfolding split_loop
inside fuel c part s h = rw (lower_quote c h) refl

dividing :
    (fuel : ℕ) (part s : Bytes)
    → split_loop (suc fuel) quote_options false part (b' ' ∷ b'"' ∷ s)
      ≡ part ∷ split_loop fuel quote_options false [] (b'"' ∷ s)
unfolding split_loop
dividing fuel part s = refl

-- From inside the quotes to behind them
quote-rest :
    (fuel : ℕ) (part w rest : Bytes)
    → Lacks b'"' w
    → length w + length rest + 1 < fuel
    → (g : ℕ) × (length rest < g)
      × (split_loop fuel quote_options true part (w ++ b'"' ∷ rest)
          ≡ split_loop g quote_options false (part ++ w) rest)
quote-rest zero part w rest h k = absurd (omega arith)
quote-rest (suc fuel) part [] rest h k = (
  fuel,
  omega arith,
  closing fuel part rest
      ∙ ap (λ p. split_loop fuel quote_options false p rest) (sym (append-nil part)),
)
quote-rest (suc fuel) part (c ∷ w) rest h k =
    let (g, enough, same) = quote-rest fuel (part ++ c ∷ []) w rest h.1 (omega arith) in
    (
      g,
      enough,
      inside fuel c part (w ++ b'"' ∷ rest) h.0
          ∙ same
          ∙ ap (λ p. split_loop g quote_options false p rest) (append_assoc part (c ∷ []) w),
    )

split_nil : (fuel : ℕ) → split_loop (suc fuel) quote_options false [] [] ≡ []
unfolding split_loop
split_nil fuel = refl

split_end :
    (fuel : ℕ) (w : Bytes) → 0 < fuel → w ≢ [] → split_loop fuel quote_options false w [] ≡ w ∷ []
unfolding split_loop
split_end zero w h n = absurd (omega arith)
split_end (suc fuel) [] h n = absurd (n refl)
split_end (suc fuel) (c ∷ w) h n = refl

-- Behind the delimiter the next quote opens.
split_next :
    (fuel : ℕ) (part v : Bytes) (ws : List Bytes)
    → length (quoted (v ∷ ws)) + 1 < fuel
    → (g : ℕ) × (length (quoted (v ∷ ws)) < g)
      × (split_loop fuel quote_options false part (b' ' ∷ quoted (v ∷ ws))
          ≡ part ∷ split_loop g quote_options false [] (quoted (v ∷ ws)))
split_next zero part v ws h = absurd (omega arith)
split_next (suc fuel) part v [] h = (fuel, omega arith, dividing fuel part (v ++ b'"' ∷ []))
split_next (suc fuel) part v (u ∷ ws) h =
    (fuel, omega arith, dividing fuel part (v ++ b'"' ∷ b' ' ∷ quoted (u ∷ ws)))

split_loop-quoted :
    (fuel : ℕ) (ws : List Bytes)
    → All IsQuotable ws
    → length (quoted ws) < fuel
    → split_loop fuel quote_options false [] (quoted ws) ≡ ws
split_loop-quoted zero ws h k = absurd (omega arith)
split_loop-quoted (suc fuel) [] h k = split_nil fuel
split_loop-quoted (suc fuel) (w ∷ []) h k =
    let long = length-append w (b'"' ∷ []) in
    let (g, enough, same) = quote-rest fuel [] w [] h.0.1 (omega arith) in
    opening fuel [] (w ++ b'"' ∷ []) ∙ same ∙ split_end g w enough h.0.0
split_loop-quoted (suc fuel) (w ∷ v ∷ ws) h k =
    let rest = b' ' ∷ quoted (v ∷ ws) in
    let long = length-append w (b'"' ∷ rest) in
    let (g, enough, same) = quote-rest fuel [] w rest h.0.1 (omega arith) in
    let (f, plenty, next) = split_next g w v ws (omega arith) in
    opening fuel [] (w ++ b'"' ∷ rest)
    ∙ same
    ∙ next
    ∙ ap (◌∷◌ w) (split_loop-quoted f (v ∷ ws) h.1 plenty)

quoted-Lacks : (ws : List Bytes) → All IsQuotable ws → Lacks 0 (quoted ws)
quoted-Lacks [] h = tt
quoted-Lacks (w ∷ []) h = (omega arith, Lacks-append 0 w (b'"' ∷ []) h.0.2 (omega arith, tt))
quoted-Lacks (w ∷ v ∷ ws) h = (
  omega arith,
  Lacks-append 0 w (b'"' ∷ b' ' ∷ quoted (v ∷ ws)) h.0.2
      (omega arith, (omega arith, quoted-Lacks (v ∷ ws) h.1)),
)

pass_delims-quoted : (ws : List Bytes) → pass_delims quote_options (quoted ws) ≡ quoted ws
unfolding pass_delims
pass_delims-quoted [] = refl
pass_delims-quoted (w ∷ []) = refl
pass_delims-quoted (w ∷ v ∷ ws) = refl

-- `QuoteSplit` gives the words back from a text in which each word, not empty and without quotes and
-- NUL, stands in quotes with a space between them; the words may hold spaces themselves.
pub quote_split-quoted : (ws : List Bytes) → All IsQuotable ws → quote_split (quoted ws) ≡ ws
unfolding quote_split
quote_split-quoted ws h =
    ap
      (λ s.
        split_loop (suc (length (pass_delims quote_options s))) quote_options false []
          (pass_delims quote_options s))
      (c_str-Lacks (quoted ws) (quoted-Lacks ws h))
    ∙ ap (λ s. split_loop (suc (length s)) quote_options false [] s) (pass_delims-quoted ws)
    ∙ split_loop-quoted (suc (length (quoted ws))) ws h (omega arith)
