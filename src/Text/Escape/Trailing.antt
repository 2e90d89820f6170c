-- ===== src/Text/Escape/Trailing.antt =====
-- `case EMSGTAG` at a backslash with nothing behind it.
use Prim.Native.Nat.add
use znc_playground.Prelude.{
  ℕ, zero, suc, ◌+◌, ◌-◌, ◌<◌, ◌≡◌, refl, ap, ◌∙◌, [], ◌∷◌, ◌++◌, arith, Bytes, AllBytes, length,
  length-append, append_assoc,
}
use znc_playground.Text.Escape.Flat.{read-write}
use znc_playground.Text.Escape.Loop.{escape_loop, escape_n}
use znc_playground.Text.Escape.Read.{ascii, msg_tag, backslash, read_char}
use znc_playground.Text.Escape.RoundTrip.{round, flat, length-le-flat, escape_n-flat}
use znc_playground.Text.Escape.Write.{write_char}

-- The loop reads what was written for `s`, and goes on behind it.
escape_loop_prefix :
    (f : ℕ) (s rest : Bytes)
    → AllBytes s
    → escape_loop (length s + f) msg_tag ascii (flat msg_tag s ++ rest)
      ≡ s ++ escape_loop f msg_tag ascii rest
escape_loop_prefix f [] rest b = rw add.zero
escape_loop_prefix f (c ∷ s) rest b =
    rw (append_assoc, add.suc)
      (round (length s + f) msg_tag c _ (flat msg_tag s ++ rest)
          (read-write msg_tag c (flat msg_tag s ++ rest) (λ e. cc) b.0)
        ∙ ap (◌∷◌ c) (escape_loop_prefix f s rest b.1))

-- More fuel than the text has bytes changes nothing at a single backslash.
lone_backslash : (f : ℕ) → 0 < f → escape_loop f msg_tag ascii (backslash ∷ []) ≡ 0 ∷ []
unfolding escape_loop read_char write_char
lone_backslash zero h = absurd (omega arith)
lone_backslash (suc zero) h = refl
lone_backslash (suc (suc f)) h = refl

-- A tag value as `Escape_n` writes it, with a lone backslash behind it, is read as the value with a NUL
-- byte behind it.
pub escape_n_trailing :
    (s : Bytes)
    → AllBytes s
    → escape_n msg_tag ascii (escape_n ascii msg_tag s ++ backslash ∷ []) ≡ s ++ 0 ∷ []
escape_n_trailing s b = rw (escape_n-flat msg_tag s (λ e. cc)) (
    unfold escape_n in
    rw enough (
      escape_loop_prefix extra s (backslash ∷ []) b
      ∙ ap (λ t. s ++ t) (lone_backslash extra (omega arith))))
  where
    extra : ℕ
    extra = length (flat msg_tag s) - length s + 1

    enough : length (flat msg_tag s ++ backslash ∷ []) ≡ length s + extra
    enough =
        omega (arith, length-append (flat msg_tag s) (backslash ∷ []), length-le-flat msg_tag s)
