-- ===== src/Text/Token/Words.antt =====
-- Tokens of a text of words, each a text without the separator, a single character.
use znc_playground.Prelude.{
  ℕ, zero, suc, ◌+◌, ◌≤◌, ◌≡◌, ◌≢◌, refl, ap, sym, ◌∙◌, Bool, true, false, [], ◌∷◌, ◌++◌,
  if◌then◌else◌, if_elim, Bytes, length, length-append, arith,
}
use znc_playground.Text.Split.{Lacks}
use znc_playground.Text.Token.Defs.{skip_seps, pass_sep, find_token, before_sep, token}

-- The text does not begin with `d`.
abbrev pub Starts : ℕ → Bytes → Type 0
Starts d [] = Unit
Starts d (c ∷ s) = c ≢ d

module _ (d : ℕ) (real : d ≢ 0) where
  pub skip_seps-ne : (fuel : ℕ) (s : Bytes) → Starts d s → skip_seps fuel (d ∷ []) s ≡ s
  unfolding skip_seps
  skip_seps-ne zero s h = refl
  skip_seps-ne (suc fuel) [] h = ground arith
  skip_seps-ne (suc fuel) (c ∷ s) h = ground arith

  before_sep-all : (w : Bytes) → Lacks d w → before_sep (d ∷ []) w ≡ w
  unfolding before_sep
  before_sep-all [] h = refl
  before_sep-all (c ∷ w) h = ground (arith, before_sep-all w h.1)

  before_sep-append : (w rest : Bytes) → Lacks d w → before_sep (d ∷ []) (w ++ d ∷ rest) ≡ w
  unfolding before_sep
  before_sep-append [] rest h = ground arith
  before_sep-append (c ∷ w) rest h = ground (arith, before_sep-append w rest h.1)

  find_token-all :
      (fuel pos : ℕ) (w : Bytes)
      → Lacks d w
      → length w ≤ fuel
      → find_token fuel (d ∷ []) false (suc pos) w ≡ []
  unfolding find_token
  find_token-all zero pos [] h e = refl
  find_token-all zero pos (c ∷ w) h e = absurd (omega arith)
  find_token-all (suc fuel) pos [] h e = refl
  find_token-all (suc fuel) pos (c ∷ w) h e = ground (arith, find_token-all fuel pos w h.1)

  find_token-append :
      (fuel pos : ℕ) (w rest : Bytes)
      → Lacks d w
      → Starts d rest
      → length w + length rest ≤ fuel
      → (g : ℕ) × (length rest ≤ g)
        × (find_token (suc fuel) (d ∷ []) false (suc pos) (w ++ d ∷ rest)
            ≡ find_token g (d ∷ []) false pos rest)
  unfolding find_token pass_sep
  find_token-append fuel pos [] rest h k e =
      (fuel, omega arith, ground (arith, skip_seps-ne (length rest) rest k))
  find_token-append zero pos (c ∷ w) rest h k e = absurd (omega arith)
  find_token-append (suc fuel) pos (c ∷ w) rest h k e =
      let (g, enough, same) = find_token-append fuel pos w rest h.1 k (omega arith) in
      (g, enough, ground arith)

  length-skip_seps-le : (fuel : ℕ) (s : Bytes) → length (skip_seps fuel (d ∷ []) s) ≤ length s
  unfolding skip_seps
  length-skip_seps-le zero s = omega arith
  length-skip_seps-le (suc fuel) [] = ground arith
  length-skip_seps-le (suc fuel) (c ∷ s) = ground (arith, length-skip_seps-le fuel s)

  find_token_enough :
      (f g pos : ℕ) (s : Bytes)
      → length s ≤ f
      → length s ≤ g
      → find_token f (d ∷ []) false pos s ≡ find_token g (d ∷ []) false pos s
  unfolding find_token pass_sep
  find_token_enough zero zero pos s h k = refl
  find_token_enough zero (suc g) zero s h k = refl
  find_token_enough zero (suc g) (suc pos) [] h k = refl
  find_token_enough zero (suc g) (suc pos) (c ∷ s) h k = absurd (omega arith)
  find_token_enough (suc f) zero zero s h k = refl
  find_token_enough (suc f) zero (suc pos) [] h k = refl
  find_token_enough (suc f) zero (suc pos) (c ∷ s) h k = absurd (omega arith)
  find_token_enough (suc f) (suc g) zero s h k = refl
  find_token_enough (suc f) (suc g) (suc pos) [] h k = refl
  find_token_enough (suc f) (suc g) (suc pos) (c ∷ s) h k =
      let shorter = length-skip_seps-le (length s) s in
      let after = skip_seps (length s) (d ∷ []) s in
      ground (
        arith,
        find_token_enough f g (suc pos) s (omega arith) (omega arith),
        find_token_enough f g pos after (omega arith) (omega arith),
      )

  Starts-append : (w rest : Bytes) → Lacks d w → w ≢ [] → Starts d (w ++ rest)
  Starts-append [] rest h n = absurd (n refl)
  Starts-append (c ∷ w) rest h n = h.0

  Starts-Lacks : (w : Bytes) → Lacks d w → Starts d w
  Starts-Lacks [] h = tt
  Starts-Lacks (c ∷ w) h = h.0

  find_token_zero : (fuel : ℕ) (s : Bytes) → find_token fuel (d ∷ []) false 0 s ≡ s
  unfolding find_token
  find_token_zero zero s = refl
  find_token_zero (suc fuel) s = refl

  abbrev cut : Bool → Bytes → Bytes
  cut b s = if b then s else before_sep (d ∷ []) s

  token-find :
      (pos : ℕ) (b : Bool) (s : Bytes)
      → Starts d s
      → token pos b (d ∷ []) false s ≡ cut b (find_token (length s) (d ∷ []) false pos s)
  unfolding token
  token-find pos b s h =
      ap (λ t. cut b (find_token (length s) (d ∷ []) false pos t)) (skip_seps-ne (length s) s h)

  token-zero : (b : Bool) (s : Bytes) → Starts d s → token 0 b (d ∷ []) false s ≡ cut b s
  token-zero b s h = token-find 0 b s h ∙ ap (cut b) (find_token_zero (length s) s)

  pub token-first :
      (w rest : Bytes) → Lacks d w → w ≢ [] → token 0 false (d ∷ []) false (w ++ d ∷ rest) ≡ w
  token-first w rest h n =
      token-zero false (w ++ d ∷ rest) (Starts-append w (d ∷ rest) h n) ∙ before_sep-append w rest h

  pub token-only : (w : Bytes) → Lacks d w → token 0 false (d ∷ []) false w ≡ w
  token-only w h = token-zero false w (Starts-Lacks w h) ∙ before_sep-all w h

  pub token-rest : (s : Bytes) → Starts d s → token 0 true (d ∷ []) false s ≡ s
  token-rest s h = token-zero true s h

  pub token-next :
      (pos : ℕ) (b : Bool) (w rest : Bytes)
      → Lacks d w
      → w ≢ []
      → Starts d rest
      → token (suc pos) b (d ∷ []) false (w ++ d ∷ rest) ≡ token pos b (d ∷ []) false rest
  token-next pos b w rest h n k =
      let (g, enough, same) =
        find_token-append (length w + length rest) pos w rest h k (omega arith) in
      token-find (suc pos) b (w ++ d ∷ rest) (Starts-append w (d ∷ rest) h n)
      ∙ ap (cut b) (
          find_token_enough (length (w ++ d ∷ rest)) (suc (length w + length rest)) (suc pos)
            (w ++ d ∷ rest) (omega arith) (omega (arith, length-append w (d ∷ rest)))
          ∙ same
          ∙ find_token_enough g (length rest) pos rest enough (omega arith))
      ∙ sym (token-find pos b rest k)

  pub token-last :
      (pos : ℕ) (b : Bool) (w : Bytes) → Lacks d w → token (suc pos) b (d ∷ []) false w ≡ []
  unfolding before_sep
  token-last pos b w h =
      token-find (suc pos) b w (Starts-Lacks w h)
      ∙ ap (cut b) (find_token-all (length w) pos w h (omega arith))
      ∙ if_elim (λ t. t ≡ []) b [] [] (λ e. refl) (λ e. refl)
