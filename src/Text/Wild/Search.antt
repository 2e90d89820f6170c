-- ===== src/Text/Wild/Search.antt =====
-- `CString::WildCmp` of src/ZNCString.cpp. The pointers `wild`, `CString`, `mp` and `cp` are the texts
-- that stand behind them, which end where the C texts have their NUL.
use znc_playground.Prelude.{
  ℕ, zero, suc, ◌+◌, ◌*◌, Bool, true, false, not, ◌&&◌, ◌||◌, [], ◌∷◌, Option, none, some, ◌==◌,
  if◌then◌else◌, Bytes, length,
}
use znc_playground.Text.Compare.{CaseSensitivity, sensitive, insensitive, c_str, as_lower}

-- How a run ends: with an answer, with a read through the null pointer `mp`, or with no fuel left.
pub data Outcome : Type 0 where
  answer : Bool → Outcome
  null_read : Outcome
  out_of_fuel : Outcome

-- `*wild == *CString || *wild == '?'`
abbrev pub fits : ℕ → ℕ → Bool
fits w c = w == c || w == b'?'

-- `while (*wild == '*') wild++; return *wild == 0;`
unfoldable pub only_stars : Bytes → Bool
only_stars [] = true
only_stars (w ∷ ws) = w == b'*' && only_stars ws

-- `wild = mp; CString = cp++;`
unfoldable pub retry :
    Option Bytes → Bytes → (Bytes → Bytes → Option Bytes → Bytes → Outcome) → Outcome
retry none cp next = null_read
retry (some m) [] next = next m [] (some m) []
retry (some m) (c ∷ cp) next = next m (c ∷ cp) (some m) cp

-- `if (!*++wild) return true; mp = wild; cp = CString + 1;`
unfoldable pub at_star :
    Bytes → Bytes → Bytes → (Bytes → Bytes → Option Bytes → Bytes → Outcome) → Outcome
at_star [] s cp next = answer true
at_star (w ∷ ws) s cp next = next (w ∷ ws) s (some (w ∷ ws)) cp

-- The second loop and what follows it
unfoldable pub search_loop : ℕ → Bytes → Bytes → Option Bytes → Bytes → Outcome
search_loop zero wild s mp cp = out_of_fuel
search_loop (suc f) wild [] mp cp = answer (only_stars wild)
search_loop (suc f) [] (c ∷ s) mp cp = retry mp cp (search_loop f)
search_loop (suc f) (w ∷ ws) (c ∷ s) mp cp =
    let onward = search_loop f ws s mp cp in
    let again = retry mp cp (search_loop f) in
    if w == b'*' then at_star ws (c ∷ s) s (search_loop f) else if fits w c then onward else again

abbrev pub fuel_for : Bytes → Bytes → ℕ
fuel_for wild s = (length s + 2) * (length wild + 1) + 2

-- The first loop, up to the first `*`
unfoldable pub compare_prefix : ℕ → Bytes → Bytes → Outcome
compare_prefix f wild [] = search_loop f wild [] none []
compare_prefix f [] (c ∷ s) = answer false
compare_prefix f (w ∷ ws) (c ∷ s) =
    let onward = compare_prefix f ws s in
    if w == b'*'
    then search_loop f (w ∷ ws) (c ∷ s) none []
    else if not (w == c) && not (w == b'?')
    then answer false
    else onward

abbrev pub fold_case : CaseSensitivity → Bytes → Bytes
fold_case sensitive s = c_str s
fold_case insensitive s = c_str (as_lower s)

unfoldable pub wild_cmp : CaseSensitivity → Bytes → Bytes → Outcome
unfolding compare_prefix search_loop retry at_star only_stars c_str
wild_cmp cs wild s =
    let wld = fold_case cs wild in
    let str = fold_case cs s in compare_prefix (fuel_for wld str) wld str
