-- ===== src/Text/Trim.antt =====
-- `Trim`, `TrimLeft`, `TrimRight`, `TrimPrefix` and the chomps of src/ZNCString.cpp. The source
-- changes the string in place and also reports whether it changed; the trimmed text is given here.
pub mod Clean
use znc_playground.Prelude.{ℕ, Bool, true, false, ◌||◌, [], ◌∷◌, ◌==◌, if◌then◌else◌, Bytes}

-- `s.find(c) != npos`
unfoldable pub contains_char : Bytes → ℕ → Bool
contains_char [] c = false
contains_char (x ∷ s) c = x == c || contains_char s c

-- `find_first_not_of(s)`, and what stands before it erased
unfoldable pub trim_left : Bytes → Bytes → Bytes
unfolding contains_char
trim_left set [] = []
trim_left set (x ∷ s) = let rest = trim_left set s in if contains_char set x then rest else x ∷ s

abbrev pub keep_right : Bool → ℕ → Bytes → Bytes
keep_right true x [] = []
keep_right true x (y ∷ ys) = x ∷ y ∷ ys
keep_right false x ys = x ∷ ys

-- `find_last_not_of(s)`, and what stands behind it erased
unfoldable pub trim_right : Bytes → Bytes → Bytes
unfolding contains_char
trim_right set [] = []
trim_right set (x ∷ s) = keep_right (contains_char set x) x (trim_right set s)

unfoldable pub trim : Bytes → Bytes → Bytes
unfolding trim_left trim_right
trim set s = trim_right set (trim_left set s)
