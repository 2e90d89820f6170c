-- ===== src/Text/SplitBy/Spaced.antt =====
-- What `Split` by spaces gives for words with a space between two of them.
use znc_playground.Prelude.{
  ℕ, zero, suc, ◌+◌, ◌<◌, ◌==◌, ◌≡◌, ◌≢◌, refl, ap, sym, ◌∙◌, false, List, [], ◌∷◌, ◌++◌,
  append_assoc, append-nil, All, Bytes, length, length-append, arith,
}
use znc_playground.Text.Compare.CStr.{c_str-Lacks}
use znc_playground.Text.Ctype.{to_lower}
use znc_playground.Text.Split.{Lacks, Lacks-append}
use znc_playground.Text.SplitBy.Defs.{word_options, split_loop, pass_delims, skip_delims, words}

-- Each word behind a space
abbrev pub behind_spaces : List Bytes → Bytes
behind_spaces [] = []
behind_spaces (w ∷ ws) = b' ' ∷ w ++ behind_spaces ws

abbrev pub spaced : List Bytes → Bytes
spaced [] = []
spaced (w ∷ ws) = w ++ behind_spaces ws

-- A word is not empty and has no space and no NUL.
abbrev pub IsWord : Bytes → Type 0
IsWord w = (w ≢ []) × Lacks b' ' w × Lacks 0 w

lower_space : (c : ℕ) → c ≢ b' ' → (to_lower c == b' ') ≡ false
unfolding to_lower
lower_space c h = ground arith

keeping :
    (fuel c : ℕ) (part s : Bytes)
    → c ≢ b' '
    → split_loop (suc fuel) word_options false part (c ∷ s)
      ≡ split_loop fuel word_options false (part ++ c ∷ []) s
unfolding split_loop
keeping fuel c part s h = rw (lower_space c h) refl

-- Through a word
keep_word :
    (fuel : ℕ) (part w rest : Bytes)
    → Lacks b' ' w
    → length w + length rest < fuel
    → (g : ℕ) × (length rest < g)
      × (split_loop fuel word_options false part (w ++ rest)
          ≡ split_loop g word_options false (part ++ w) rest)
keep_word fuel part [] rest h k =
    (fuel, omega arith, ap (λ p. split_loop fuel word_options false p rest) (sym (append-nil part)))
keep_word zero part (c ∷ w) rest h k = absurd (omega arith)
keep_word (suc fuel) part (c ∷ w) rest h k =
    let (g, enough, same) = keep_word fuel (part ++ c ∷ []) w rest h.1 (omega arith) in
    (
      g,
      enough,
      keeping fuel c part (w ++ rest) h.0
          ∙ same
          ∙ ap (λ p. split_loop g word_options false p rest) (append_assoc part (c ∷ []) w),
    )

split_end :
    (fuel : ℕ) (w : Bytes) → 0 < fuel → w ≢ [] → split_loop fuel word_options false w [] ≡ w ∷ []
unfolding split_loop
split_end zero w h n = absurd (omega arith)
split_end (suc fuel) [] h n = absurd (n refl)
split_end (suc fuel) (c ∷ w) h n = refl

-- No delimiter stands in front of a word.
pass_word : (w rest : Bytes) → IsWord w → pass_delims word_options (w ++ rest) ≡ w ++ rest
unfolding pass_delims skip_delims
pass_word [] rest h = absurd (h.0 refl)
pass_word (c ∷ w) rest h = rw (lower_space c h.1.0) refl

dividing :
    (fuel : ℕ) (part w rest : Bytes)
    → IsWord w
    → split_loop (suc fuel) word_options false part (b' ' ∷ w ++ rest)
      ≡ part ∷ split_loop fuel word_options false [] (w ++ rest)
unfolding split_loop
dividing fuel part w rest h =
    ap (λ s. part ∷ split_loop fuel word_options false [] s) (pass_word w rest h)

words_behind :
    (fuel : ℕ) (w : Bytes) (ws : List Bytes)
    → w ≢ []
    → All IsWord ws
    → length (behind_spaces ws) < fuel
    → split_loop fuel word_options false w (behind_spaces ws) ≡ w ∷ ws
words_behind fuel w [] n h k = split_end fuel w (omega arith) n
words_behind zero w (v ∷ ws) n h k = absurd (omega arith)
words_behind (suc fuel) w (v ∷ ws) n h k =
    let long = length-append v (behind_spaces ws) in
    let (g, enough, same) = keep_word fuel [] v (behind_spaces ws) h.0.1 (omega arith) in
    dividing fuel w v (behind_spaces ws) h.0
    ∙ ap (◌∷◌ w) (same ∙ words_behind g v ws h.0.0 h.1 enough)

Lacks-behind_spaces :
    (c : ℕ) (ws : List Bytes) → b' ' ≢ c → All (Lacks c) ws → Lacks c (behind_spaces ws)
Lacks-behind_spaces c [] n h = tt
Lacks-behind_spaces c (w ∷ ws) n h =
    (n, Lacks-append c w (behind_spaces ws) h.0 (Lacks-behind_spaces c ws n h.1))

words-Lacks : (ws : List Bytes) → All IsWord ws → All (Lacks 0) ws
words-Lacks [] h = tt
words-Lacks (w ∷ ws) h = (h.0.2, words-Lacks ws h.1)

pub words-spaced :
    (w : Bytes) (ws : List Bytes) → All IsWord (w ∷ ws) → words (spaced (w ∷ ws)) ≡ w ∷ ws
unfolding words
words-spaced w ws h =
    let clean : Lacks 0 (w ++ behind_spaces ws) =
      Lacks-append 0 w (behind_spaces ws) h.0.2
        (Lacks-behind_spaces 0 ws (omega arith) (words-Lacks ws h.1)) in
    let long = length-append w (behind_spaces ws) in
    let (g, enough, same) =
      keep_word (suc (length (w ++ behind_spaces ws))) [] w (behind_spaces ws) h.0.1
        (omega arith) in
    rw (c_str-Lacks (w ++ behind_spaces ws) clean)
      (rw (pass_word w (behind_spaces ws) h.0) (same ∙ words_behind g w ws h.0.0 h.1 enough))
