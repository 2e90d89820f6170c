-- ===== src/Text/Split.antt =====
-- Cutting a text at a byte: `find` and the two `substr` calls around it.
use znc_playground.Prelude.{
  ℕ, ◌≡◌, refl, [], ◌∷◌, ◌++◌, Option, none, some, ◌==◌, if◌then◌else◌, Bytes, All, arith, ◌≢◌,
}
use mathlib.Core.Option

-- Before and behind the first `c`
unfoldable pub split_at : ℕ → Bytes → Option (Bytes × Bytes)
split_at c [] = none
split_at c (x ∷ s) =
    let later = Option.map (λ (p : Bytes × Bytes). (x ∷ p.0, p.1)) (split_at c s) in
    if x == c then some ([], s) else later

-- `c` does not stand in the text.
abbrev pub Lacks : ℕ → Bytes → Type 0
Lacks c = All (λ x. x ≢ c)

pub split_at-Lacks : (c : ℕ) (s : Bytes) → Lacks c s → split_at c s ≡ none
unfolding split_at
split_at-Lacks c [] h = refl
split_at-Lacks c (x ∷ s) h = let (n, hs) = h in ground (arith, split_at-Lacks c s hs)

pub split_at-append : (c : ℕ) (s t : Bytes) → Lacks c s → split_at c (s ++ c ∷ t) ≡ some (s, t)
unfolding split_at
split_at-append c [] t h = ground arith
split_at-append c (x ∷ s) t h = let (n, hs) = h in ground (arith, split_at-append c s t hs)

pub Lacks-append : (c : ℕ) (s t : Bytes) → Lacks c s → Lacks c t → Lacks c (s ++ t)
Lacks-append c [] t h k = k
Lacks-append c (x ∷ s) t h k = (h.0, Lacks-append c s t h.1 k)
