-- ===== src/Text/Compare/CStr.antt =====
-- `c_str()` of a text without a NUL.
use znc_playground.Prelude.{◌≡◌, refl, [], ◌∷◌, Bytes, arith}
use znc_playground.Text.Compare.{c_str}
use znc_playground.Text.Split.{Lacks}

pub c_str-Lacks : (s : Bytes) → Lacks 0 s → c_str s ≡ s
unfolding c_str
c_str-Lacks [] h = refl
c_str-Lacks (c ∷ s) h = let (n, hs) = h in ground (arith, c_str-Lacks s hs)
