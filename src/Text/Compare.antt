-- ===== src/Text/Compare.antt =====
-- Comparison and pieces of a `CString`: `Equals`, `StartsWith`, `EndsWith`, `Contains`, `Left`,
-- `Right`, the chomps, `TrimPrefix`, `Ellipsize` and `Join` of src/ZNCString.cpp.
pub mod CStr
pub mod Prefix
use znc_playground.Prelude.{
  ℕ, suc, zero, ◌-◌, ◌≤◌, ◌≡◌, refl, Bool, true, false, ◌&&◌, ◌||◌, List, [], ◌∷◌, ◌++◌, map, arith,
  ltb, leb, ◌==◌, if◌then◌else◌, Bytes, codes, bytes_eq, length, length-append, take, drop,
  replicate,
}
use znc_playground.Text.Ctype.{to_lower, to_upper}

pub data CaseSensitivity : Type 0 where
  sensitive insensitive : CaseSensitivity

-- The text that C functions see behind `c_str()`: it ends at the first NUL.
unfoldable pub c_str : Bytes → Bytes
c_str [] = []
c_str (c ∷ s) = let rest = c_str s in if c == 0 then [] else c ∷ rest

abbrev pub as_lower : Bytes → Bytes
as_lower = map to_lower

abbrev pub as_upper : Bytes → Bytes
as_upper = map to_upper

-- `StrCmp(s) == 0` or `CaseCmp(s) == 0`
unfoldable pub equals : CaseSensitivity → Bytes → Bytes → Bool
unfolding c_str bytes_eq to_lower
equals sensitive s t = bytes_eq (c_str s) (c_str t)
equals insensitive s t = bytes_eq (as_lower (c_str s)) (as_lower (c_str t))

unfoldable pub left : ℕ → Bytes → Bytes
left n s = take (if ltb (length s) n then length s else n) s

unfoldable pub right : ℕ → Bytes → Bytes
right n s = drop (length s - (if ltb (length s) n then length s else n)) s

unfoldable pub starts_with : CaseSensitivity → Bytes → Bytes → Bool
unfolding equals left
starts_with cs s prefix = equals cs (left (length prefix) s) prefix

unfoldable pub ends_with : CaseSensitivity → Bytes → Bytes → Bool
unfolding equals right
ends_with cs s suffix = equals cs (right (length suffix) s) suffix

-- `s.find(t) != npos`
unfoldable pub is_prefix : Bytes → Bytes → Bool
is_prefix [] s = true
is_prefix (y ∷ t) [] = false
is_prefix (y ∷ t) (x ∷ s) = x == y && is_prefix t s

unfoldable pub has_substring : Bytes → Bytes → Bool
unfolding is_prefix
has_substring t [] = is_prefix t []
has_substring t (x ∷ s) = is_prefix t (x ∷ s) || has_substring t s

unfoldable pub contains : CaseSensitivity → Bytes → Bytes → Bool
unfolding has_substring to_lower
contains sensitive s t = has_substring t s
contains insensitive s t = has_substring (as_lower t) (as_lower s)

-- `while (uLen-- && length()) erase(0, 1)`
unfoldable pub left_chomp : ℕ → Bytes → Bytes
left_chomp zero s = s
left_chomp (suc n) [] = []
left_chomp (suc n) (x ∷ s) = left_chomp n s

-- `while (uLen-- && length()) erase(length() - 1)`
unfoldable pub right_chomp : ℕ → Bytes → Bytes
right_chomp zero s = s
right_chomp (suc n) [] = []
right_chomp (suc n) (x ∷ s) = right_chomp n (take (length s) (x ∷ s))

-- The text behind the prefix and `true`, or the text as it is and `false`
unfoldable pub trim_prefix : Bytes → Bytes → Bytes × Bool
unfolding starts_with left_chomp
trim_prefix prefix s =
    if starts_with insensitive s prefix then (left_chomp (length prefix) s, true) else (s, false)

unfoldable pub ellipsize : ℕ → Bytes → Bytes
ellipsize n s =
    if leb (length s) n
    then s
    else if ltb n 4
    then replicate n b'.'
    else take (n - 3) s ++ codes "..."

-- `Join`, with this text between the others
unfoldable pub join : Bytes → List Bytes → Bytes
join sep [] = []
join sep (x ∷ []) = x
join sep (x ∷ y ∷ xs) = x ++ (sep ++ join sep (y ∷ xs))

length-replicate : (n c : ℕ) → length (replicate n c) ≡ n
length-replicate zero c = refl
length-replicate (suc n) c = omega (arith, length-replicate n c)

length-take : (n : ℕ) (s : Bytes) → n ≤ length s → length (take n s) ≡ n
length-take zero s h = refl
length-take (suc n) [] h = omega arith
length-take (suc n) (x ∷ s) h = omega (arith, length-take n s (omega arith))

-- `Ellipsize` gives a text of the length that is asked for, or of the text's own length if that is
-- smaller.
pub length-ellipsize :
    (n : ℕ) (s : Bytes) → length (ellipsize n s) ≡ (if leb (length s) n then length s else n)
unfolding ellipsize
length-ellipsize n s = ground (
  arith,
  length-replicate n b'.',
  length-append (take (n - 3) s) (codes "..."),
  length-take (n - 3) s,
)
