-- ===== src/Message/ParamRange.antt =====
-- `GetParamsColon` from any index: inside the vector, and behind its end.
use mathlib.Core.Option
use znc_playground.Message.Defs.{Message}
use znc_playground.Message.Params.{shown, shown_params-shown, length-shown, take_all}
use znc_playground.Message.Print.{shown_params, clamped_len, get_params_colon, uint_mod, size_mod}
use znc_playground.Prelude.{
  ℕ, zero, suc, ◌+◌, ◌-◌, ◌%◌, ◌<◌, ◌≤◌, ◌≡◌, ◌≢◌, refl, ap, sym, ◌∙◌, false, ◌||◌, ◌⊎◌, inl, inr,
  List, [], ◌∷◌, ◌++◌, ◌==◌, ltb, none, some, arith, if◌then◌else◌, Bool-cases, Bytes, codes,
  length, length-drop, get_elem?, take, drop,
}
use znc_playground.Text.Compare.{join}

take-append-drop : (n : ℕ) (xs : List Bytes) → take n xs ++ drop n xs ≡ xs
take-append-drop zero xs = refl
take-append-drop (suc n) [] = refl
take-append-drop (suc n) (x ∷ xs) = ap (◌∷◌ x) (take-append-drop n xs)

length-take_le : (n : ℕ) (xs : List Bytes) → n ≤ length xs → length (take n xs) ≡ n
length-take_le zero xs h = refl
length-take_le (suc n) [] h = absurd (omega arith)
length-take_le (suc n) (x ∷ xs) h = ap suc (length-take_le n xs (omega arith))

clamped_len_inside :
    (size i n : ℕ)
    → i < size
    → size < uint_mod
    → clamped_len size i n ≡ (if ltb (size - i - 1) n then size - i else n)
unfolding clamped_len
clamped_len_inside size i n h k = rw (short, whole) refl
  where
    short : (size + size_mod - i + size_mod - 1) % size_mod ≡ size - i - 1
    short = omega arith

    whole : (size + size_mod - i) % size_mod % uint_mod ≡ size - i
    whole = omega arith

-- The number of rounds is what was asked for, or what is left.
rounds :
    (size i n : ℕ)
    → i < size
    → size < uint_mod
    → n < uint_mod
    → ((n ≤ size - i) × ((i + clamped_len size i n) % uint_mod - i ≡ n))
      ⊎ ((size - i ≤ n) × ((i + clamped_len size i n) % uint_mod - i ≡ size - i))
rounds size i n h k l =
    rw (clamped_len_inside size i n h k) (elim (Bool-cases (ltb (size - i - 1) n)) [
      | inl e ↦ rw e (inr (ground arith, omega arith))
      | inr e ↦ rw e (inl (ground arith, ground arith))
    ])

-- Behind the end the subtraction wraps, and what was asked for stays.
clamped_len_outside : (size i n : ℕ) → size ≤ i → i + n < uint_mod → clamped_len size i n ≡ n
unfolding clamped_len
clamped_len_outside size i n h k = ground arith

get_elem?-outside : (i : ℕ) (xs : List Bytes) → length xs ≤ i → get_elem? xs i ≡ none
get_elem?-outside i [] h = refl
get_elem?-outside zero (x ∷ xs) h = absurd (omega arith)
get_elem?-outside (suc i) (x ∷ xs) h = get_elem?-outside i xs (omega arith)

shown_params-outside :
    (m : Message) (k i : ℕ) → length m.params ≤ i → 0 < k → shown_params m k i ≡ none
unfolding shown_params
shown_params-outside m zero i h l = absurd (omega arith)
shown_params-outside m (suc k) i h l = ground (arith, get_elem?-outside i m.params h)

nonempty_test : (n k : ℕ) → 0 < n → 0 < k → (n == 0 || k == 0) ≡ false
nonempty_test n k h l = ground arith

module _ (m : Message) (i n : ℕ) (some_asked : 0 < n) where
  abbrev suffix : List Bytes
  suffix = shown m.colon (drop i m.params)

  -- From an index inside the vector and for a count above 0, `GetParamsColon` joins the parameters from there on, as many as
  -- were asked for and are left, the last of the message with its colon.
  pub get_params_colon_inside :
      i < length m.params
      → length m.params < uint_mod
      → n < uint_mod
      → get_params_colon m i n ≡ some (join (codes " ") (take n suffix))
  unfolding get_params_colon
  get_params_colon_inside h k l =
      rw (nonempty_test (length m.params) n (omega arith) some_asked)
        (ap (Option.map (join (codes " "))) (found (rounds (length m.params) i n h k l)))
    where
      collected : (j : ℕ) → j ≤ length (drop i m.params) → shown_params m j i ≡ some (take j suffix)
      collected j le =
          ap (λ t. shown_params m j t) (sym (length-take_le i m.params (omega arith)))
          ∙ shown_params-shown m j (take i m.params) (drop i m.params)
              (sym (take-append-drop i m.params)) le

      whole : length (drop i m.params) ≤ n → take (length m.params - i) suffix ≡ take n suffix
      whole le =
          take_all (length m.params - i) suffix
            (omega (arith, length-shown m.colon (drop i m.params), length-drop i m.params))
          ∙ sym (take_all n suffix (omega (arith, length-shown m.colon (drop i m.params))))

      found :
          ((n ≤ length m.params - i) × ((i + clamped_len (length m.params) i n) % uint_mod - i ≡ n))
            ⊎ ((length m.params - i ≤ n)
                × ((i + clamped_len (length m.params) i n) % uint_mod - i ≡ length m.params - i))
          → shown_params m ((i + clamped_len (length m.params) i n) % uint_mod - i) i
            ≡ some (take n suffix)
      found (inl (few, e)) = rw e (collected n (omega (arith, length-drop i m.params)))
      found (inr (many, e)) = rw e (
          collected (length m.params - i) (omega (arith, length-drop i m.params))
          ∙ ap some (whole (omega (arith, length-drop i m.params))))

  -- If a message has parameters, the index is at or behind their end, the count is above 0, and index
  -- plus count stay below 2^32, `GetParamsColon` reads outside the vector.
  pub get_params_colon_outside :
      m.params ≢ [] → length m.params ≤ i → i + n < uint_mod → get_params_colon m i n ≡ none
  unfolding get_params_colon
  get_params_colon_outside e h l =
      rw (nonempty_test (length m.params) n (positive m.params e) some_asked) (
        rw (clamped_len_outside (length m.params) i n h l) (
          ap (λ r. Option.map (join (codes " ")) r)
            (shown_params-outside m ((i + n) % uint_mod - i) i h (omega arith))))
    where
      positive : (ps : List Bytes) → ps ≢ [] → 0 < length ps
      positive [] e = absurd (e refl)
      positive (p ∷ ps) e = omega arith
