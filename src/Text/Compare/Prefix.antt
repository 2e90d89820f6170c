-- ===== src/Text/Compare/Prefix.antt =====
-- Prefixes that stand in front of a text, or do not.
use znc_playground.Prelude.{
  ◌≡◌, refl, ap, ◌∙◌, true, false, [], ◌∷◌, ◌++◌, if_elim, ltb, length, length-append, take,
  take-length-append, Bytes, bytes_eq_iff, arith,
}
use znc_playground.Text.Compare.{
  equals, sensitive, insensitive, CaseSensitivity, c_str, as_lower, left, starts_with, left_chomp,
  trim_prefix,
}

pub equals_refl : (cs : CaseSensitivity) (s : Bytes) → equals cs s s ≡ true
unfolding equals
equals_refl sensitive s = (bytes_eq_iff (c_str s) (c_str s)).1 refl
equals_refl insensitive s = (bytes_eq_iff (as_lower (c_str s)) (as_lower (c_str s))).1 refl

left-append : (p s : Bytes) → left (length p) (p ++ s) ≡ p
unfolding left
left-append p s =
    if_elim (λ n. take n (p ++ s) ≡ p) (ltb (length (p ++ s)) (length p)) _ _
      (λ e. absurd (ground (arith, length-append p s))) (λ e. take-length-append p s)

pub starts_with-append : (cs : CaseSensitivity) (p s : Bytes) → starts_with cs (p ++ s) p ≡ true
unfolding starts_with
starts_with-append cs p s = ap (λ t. equals cs t p) (left-append p s) ∙ equals_refl cs p

left_chomp-append : (p s : Bytes) → left_chomp (length p) (p ++ s) ≡ s
unfolding left_chomp
left_chomp-append [] s = refl
left_chomp-append (c ∷ p) s = left_chomp-append p s

pub trim_prefix-append : (p s : Bytes) → trim_prefix p (p ++ s) ≡ (s, true)
unfolding trim_prefix
trim_prefix-append p s =
    rw (starts_with-append insensitive p s) (ap (λ t. (t, true)) (left_chomp-append p s))

pub trim_prefix-absent :
    (p s : Bytes) → starts_with insensitive s p ≡ false → trim_prefix p s ≡ (s, false)
unfolding trim_prefix
trim_prefix-absent p s h = rw h refl
