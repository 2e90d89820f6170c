-- ===== src/Config/Write.antt =====
-- `Write` of `CConfig`, as the list of the lines that it writes.
use znc_playground.Config.Defs.{Config, config, Blocks, nil, block}
use znc_playground.Prelude.{
  ℕ, ◌+◌, List, [], ◌∷◌, ◌++◌, ◌==◌, if◌then◌else◌, Bytes, codes, replicate,
}
use znc_playground.StringMap.{StringMap}
use znc_playground.Text.Compare.{c_str}

-- `Replace_n` of one character by nothing
unfoldable pub remove_char : ℕ → Bytes → Bytes
remove_char c [] = []
remove_char c (x ∷ s) = let rest = remove_char c s in if x == c then rest else x ∷ rest

-- The lambda `SingleLine`; `Replace_n` reads up to the first NUL.
unfoldable pub single_line : Bytes → Bytes
unfolding remove_char c_str
single_line s = remove_char 10 (c_str (remove_char 13 (c_str s)))

abbrev pub tabs : ℕ → Bytes
tabs n = replicate n 9

abbrev pub line_of : Bytes → Bytes
line_of s = single_line s ++ 10 ∷ []

unfoldable pub write_values : ℕ → Bytes → List Bytes → List Bytes
unfolding single_line
write_values n name [] = []
write_values n name (v ∷ vs) =
    line_of (tabs n ++ (name ++ (codes " = " ++ v))) ∷ write_values n name vs

unfoldable pub write_entries : ℕ → StringMap (List Bytes) → List Bytes
unfolding write_values
write_entries n [] = []
write_entries n ((name, vs) ∷ es) = write_values n name vs ++ write_entries n es

unfoldable mutual
  unfolding write_entries single_line

  pub write_config : ℕ → Config → List Bytes
  write_config n (config es bs) = write_entries n es ++ write_blocks n bs

  pub write_blocks : ℕ → Blocks → List Bytes
  write_blocks n nil = []
  write_blocks n (block tag name c bs) =
      (10 ∷ [])
      ∷ line_of (tabs n ++ (codes "<" ++ (tag ++ (codes " " ++ (name ++ codes ">")))))
      ∷ (write_config (n + 1) c
          ++ (line_of (tabs n ++ (codes "</" ++ (tag ++ codes ">"))) ∷ write_blocks n bs))
