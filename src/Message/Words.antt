-- ===== src/Message/Words.antt =====
-- What `next_word` finds in a text that was put together from words.
use znc_playground.Message.Parse.{take_word, skip_spaces, next_word}
use znc_playground.Prelude.{◌≡◌, ◌≢◌, refl, [], ◌∷◌, ◌++◌, arith, Bytes}
use znc_playground.Text.Split.{Lacks}

-- The text is empty or begins with another byte than a space.
abbrev pub NoSpace : Bytes → Type 0
NoSpace [] = Unit
NoSpace (c ∷ s) = c ≢ b' '

take_word-append : (w s : Bytes) → Lacks b' ' w → take_word (w ++ b' ' ∷ s) ≡ (w, b' ' ∷ s)
unfolding take_word
take_word-append [] s h = refl
take_word-append (c ∷ w) s h = let (n, hw) = h in ground (arith, take_word-append w s hw)

take_word-all : (w : Bytes) → Lacks b' ' w → take_word w ≡ (w, [])
unfolding take_word
take_word-all [] h = refl
take_word-all (c ∷ w) h = let (n, hw) = h in ground (arith, take_word-all w hw)

skip_spaces-NoSpace : (s : Bytes) → NoSpace s → skip_spaces s ≡ s
unfolding skip_spaces
skip_spaces-NoSpace [] h = refl
skip_spaces-NoSpace (c ∷ s) h = ground arith

pub next_word-append : (w s : Bytes) → Lacks b' ' w → NoSpace s → next_word (w ++ b' ' ∷ s) ≡ (w, s)
unfolding next_word
next_word-append w s h n = rw (take_word-append w s h) (rw (skip_spaces-NoSpace s n))

pub next_word-all : (w : Bytes) → Lacks b' ' w → next_word w ≡ (w, [])
unfolding next_word
next_word-all w h = rw (take_word-all w h)
