-- ===== src/Text/Escape/Loop.antt =====
-- The loop of `CString::Escape_n`. Every round reads at least one byte, so the length is fuel enough.
use znc_playground.Prelude.{ℕ, zero, suc, [], ◌∷◌, ◌++◌, none, some, Bytes, codes, length}
use znc_playground.Text.Trim.{trim_right}
use znc_playground.Text.Escape.Read.{EscapeKind, hex_colon, ReadChar, read_char}
use znc_playground.Text.Escape.Write.{write_char}

-- One round: the text that is written, and the loop on the text that is left
abbrev pub emit : EscapeKind → (Bytes → Bytes) → ReadChar → Bytes
emit to next (none, rest) = next rest
emit to next (some c, rest) = write_char to c ++ next rest

unfoldable pub escape_loop : ℕ → EscapeKind → EscapeKind → Bytes → Bytes
escape_loop zero from to s = []
escape_loop (suc fuel) from to [] = []
escape_loop (suc fuel) from to (c ∷ s) = emit to (escape_loop fuel from to) (read_char from c s)

-- `if (eTo == EHEXCOLON) sRet.TrimRight(":")`
unfoldable pub finish : EscapeKind → Bytes → Bytes
unfolding trim_right
finish hex_colon s = trim_right (codes ":") s
finish _ s = s

unfoldable pub escape_n : EscapeKind → EscapeKind → Bytes → Bytes
unfolding escape_loop read_char write_char finish
escape_n from to s = finish to (escape_loop (length s) from to s)
