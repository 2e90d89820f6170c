-- ===== src/Text/Token/Defs.antt =====
-- The loops of `Token`. A pointer into the text is the rest of the text. The separator is not empty:
-- with an empty one the loops of the source do not end.
use znc_playground.Prelude.{
  ℕ, zero, suc, Bool, true, ◌&&◌, ◌||◌, [], ◌∷◌, ◌==◌, if◌then◌else◌, Bytes, length, drop,
}

-- `strncmp(p, sep, sep_len) == 0`; behind the end of the text stands a NUL.
unfoldable pub starts_at : Bytes → Bytes → Bool
starts_at [] s = true
starts_at (y ∷ sep) [] = y == 0
starts_at (y ∷ sep) (x ∷ s) = x == y && (x == 0 || starts_at sep s)

-- `while (strncmp(p, sep, sep_len) == 0) p += sep_len`
unfoldable pub skip_seps : ℕ → Bytes → Bytes → Bytes
unfolding starts_at
skip_seps zero sep s = s
skip_seps (suc fuel) sep s =
    let rest = skip_seps fuel sep (drop (length sep) s) in if starts_at sep s then rest else s

-- The inner loop of the search, entered at a separator
unfoldable pub pass_sep : Bytes → Bool → Bytes → Bytes
unfolding skip_seps
pass_sep sep allow_empty s =
    let rest = drop (length sep) s in if allow_empty then rest else skip_seps (length rest) sep rest

-- The start of the token `pos`. Every round passes a byte.
unfoldable pub find_token : ℕ → Bytes → Bool → ℕ → Bytes → Bytes
unfolding starts_at pass_sep
find_token zero sep allow_empty pos s = s
find_token (suc fuel) sep allow_empty zero s = s
find_token (suc fuel) sep allow_empty (suc pos) [] = []
find_token (suc fuel) sep allow_empty (suc pos) (c ∷ s) =
    let found = find_token fuel sep allow_empty pos (pass_sep sep allow_empty (c ∷ s)) in
    let next = find_token fuel sep allow_empty (suc pos) s in
    if starts_at sep (c ∷ s) then found else next

-- Up to the next separator
unfoldable pub before_sep : Bytes → Bytes → Bytes
unfolding starts_at
before_sep sep [] = []
before_sep sep (c ∷ s) =
    let rest = before_sep sep s in if starts_at sep (c ∷ s) then [] else c ∷ rest

unfoldable pub token : ℕ → Bool → Bytes → Bool → Bytes → Bytes
unfolding skip_seps find_token before_sep
token pos rest sep allow_empty s =
    let start = if allow_empty then s else skip_seps (length s) sep s in
    let found = find_token (length s) sep allow_empty pos start in
    if rest then found else before_sep sep found
