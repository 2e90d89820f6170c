-- ===== src/Text/Escape/Clean.antt =====
-- Which bytes never stand in an escaped text.
use znc_playground.Prelude.{ℕ, [], ◌∷◌, arith, Bytes}
use znc_playground.Text.Escape.Loop.{escape_n}
use znc_playground.Text.Escape.Read.{EscapeKind, ascii, msg_tag}
use znc_playground.Text.Escape.RoundTrip.{flat, escape_n-flat}
use znc_playground.Text.Escape.Write.{write_char}
use znc_playground.Text.Split.{Lacks, Lacks-append}

flat-Lacks :
    (d : ℕ) (k : EscapeKind) (s : Bytes) → ((c : ℕ) → Lacks d (write_char k c)) → Lacks d (flat k s)
flat-Lacks d k [] h = tt
flat-Lacks d k (c ∷ s) h = Lacks-append d (write_char k c) (flat k s) (h c) (flat-Lacks d k s h)

abbrev LacksBoth : Bytes → Type 0
LacksBoth t = Lacks b' ' t × Lacks b';' t

write_msg_tag-Lacks : (c : ℕ) → LacksBoth (write_char msg_tag c)
unfolding write_char
write_msg_tag-Lacks c = ground arith

-- An escaped tag value has no space and no semicolon, whatever the value holds.
pub escape_n-Lacks :
    (s : Bytes) → Lacks b' ' (escape_n ascii msg_tag s) × Lacks b';' (escape_n ascii msg_tag s)
escape_n-Lacks s = rw (escape_n-flat msg_tag s (λ e. cc)) (
  flat-Lacks b' ' msg_tag s (λ c. (write_msg_tag-Lacks c).0),
  flat-Lacks b';' msg_tag s (λ c. (write_msg_tag-Lacks c).1),
)
