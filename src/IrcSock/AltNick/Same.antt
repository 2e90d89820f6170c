-- ===== src/IrcSock/AltNick/Same.antt =====
-- `Equals` on a nick and on the nick with another character.
use znc_playground.IrcSock.AltNick.Defs.{same, with_char, is_nil}
use znc_playground.Prelude.{
  ℕ, ◌≡◌, ◌≢◌, refl, ap, true, false, [], ◌∷◌, ◌++◌, ◌==◌, Bytes, bytes_eq, bytes_eq_iff, arith,
}
use znc_playground.Text.Compare.CStr.{c_str-Lacks}
use znc_playground.Text.Compare.{equals, c_str, as_lower}
use znc_playground.Text.Ctype.{to_lower}
use znc_playground.Text.Split.{Lacks, Lacks-append}

bytes_eq_sym : (s t : Bytes) → bytes_eq s t ≡ bytes_eq t s
unfolding bytes_eq
bytes_eq_sym [] [] = refl
bytes_eq_sym [] (y ∷ t) = refl
bytes_eq_sym (x ∷ s) [] = refl
bytes_eq_sym (x ∷ s) (y ∷ t) = ground (arith, bytes_eq_sym s t)

pub same_sym : (s t : Bytes) → same s t ≡ same t s
unfolding equals
same_sym s t = bytes_eq_sym (as_lower (c_str s)) (as_lower (c_str t))

-- Behind texts that are the same, Equals is the same.
pub same_alike : (r s t : Bytes) → same s t ≡ true → same r t ≡ same r s
unfolding equals
same_alike r s t e = rw ((bytes_eq_iff (as_lower (c_str s)) (as_lower (c_str t))).0 e) refl

lower-append : (s : Bytes) (c : ℕ) → as_lower (s ++ c ∷ []) ≡ as_lower s ++ to_lower c ∷ []
lower-append [] c = refl
lower-append (x ∷ s) c = ap (◌∷◌ (to_lower x)) (lower-append s c)

bytes_eq-longer : (s : Bytes) (c : ℕ) → bytes_eq (s ++ c ∷ []) s ≡ false
unfolding bytes_eq
bytes_eq-longer [] c = refl
bytes_eq-longer (x ∷ s) c = ground (arith, bytes_eq-longer s c)

bytes_eq-append : (s : Bytes) (c d : ℕ) → bytes_eq (s ++ c ∷ []) (s ++ d ∷ []) ≡ (c == d)
unfolding bytes_eq
bytes_eq-append [] c d = ground arith
bytes_eq-append (x ∷ s) c d = ground (arith, bytes_eq-append s c d)

bytes_eq-nil : (s : Bytes) (c : ℕ) → bytes_eq [] (s ++ c ∷ []) ≡ false
unfolding bytes_eq
bytes_eq-nil [] c = refl
bytes_eq-nil (x ∷ s) c = refl

module _ (p : Bytes) (h : Lacks 0 p) where
  text-with_char : (c : ℕ) → c ≢ 0 → c_str (with_char p c) ≡ with_char p c
  text-with_char c n = c_str-Lacks (with_char p c) (Lacks-append 0 p (c ∷ []) h (n, tt))

  pub same-longer : (c : ℕ) → c ≢ 0 → same (with_char p c) p ≡ false
  unfolding equals
  same-longer c n =
      rw (text-with_char c n)
        (rw (c_str-Lacks p h) (rw (lower-append p c) (bytes_eq-longer (as_lower p) (to_lower c))))

  pub same-with_char :
      (c d : ℕ) → c ≢ 0 → d ≢ 0 → same (with_char p c) (with_char p d) ≡ (to_lower c == to_lower d)
  unfolding equals
  same-with_char c d n m = rw (text-with_char c n) (
      rw (text-with_char d m) (
        rw (lower-append p c)
          (rw (lower-append p d) (bytes_eq-append (as_lower p) (to_lower c) (to_lower d)))))

  pub same-nil : (s : Bytes) (c : ℕ) → c ≢ 0 → is_nil s ≡ true → same s (with_char p c) ≡ false
  unfolding equals c_str
  same-nil [] c n e =
      rw (text-with_char c n) (rw (lower-append p c) (bytes_eq-nil (as_lower p) (to_lower c)))
  same-nil (x ∷ s) c n e = absurd (ground arith)
