-- ===== src/Text/Wild/Correct.antt =====
-- The search goes back to the last star only, and still finds every match.
use znc_playground.Prelude.{
  ℕ, zero, suc, ◌+◌, ◌*◌, ◌≤◌, ◌<◌, ◌≡◌, ◌≢◌, refl, ◌⊎◌, inl, inr, ◌↔◌, true, false, Bool, [], ◌∷◌,
  ◌==◌, not, none, some, arith, Bytes, length, Bool-cases, if_elim, ==_iff, ◌&&◌,
}
use znc_playground.Text.Compare.{CaseSensitivity}
use znc_playground.Text.Wild.Relation.{
  Matches, byte, skip, grow, star, Matches-byte, star_split, star_at_end, star-star, star-drop_byte,
  star_all, Matches-nil, only_stars→Matches,
}
use znc_playground.Text.Wild.Search.{
  Outcome, answer, null_read, out_of_fuel, fits, only_stars, retry, at_star, search_loop, fuel_for,
  compare_prefix, fold_case, wild_cmp,
}

-- The run ends with an answer, and the answer is right about `G`.
abbrev pub Decides : Type 0 → Outcome → Type 0
Decides G (answer true) = G
Decides G (answer false) = ¬ G
Decides G null_read = ⊥
Decides G out_of_fuel = ⊥

Decides-answer : (G : Type 0) (b : Bool) → (b ≡ true → G) → (G → b ≡ true) → Decides G (answer b)
Decides-answer G true sound complete = sound refl
Decides-answer G false sound complete = λ g. cc (complete g)

pick : {P Q : Type 0} → ¬ P → P ⊎ Q → Q
pick n (inl p) = absurd (n p)
pick n (inr q) = q

-- `G` is the question asked at the start; no pattern in play is longer than `k`.
module _ (G : Type 0) (k : ℕ) where
  -- Rounds left while there is text: each star and each byte shortens `wild`, and a step back
  -- shortens `cp`.
  abbrev Fuel : ℕ → Bytes → Bytes → Bytes → Type 0
  Fuel f wild [] cp = 0 < f
  Fuel f wild (c ∷ s) cp = length cp * (k + 1) + length wild + 1 < f

  -- Behind the first star: `m` and `cp` say where it would take one more byte.
  record Inv (f : ℕ) (wild s m cp : Bytes) : Type 0 where
    now : Matches wild s → G
    later : G → Matches (star ∷ wild) s
    either : G → Matches wild s ⊎ Matches (star ∷ m) cp
    back : Matches (star ∷ m) cp → G
    m_short : length m ≤ k
    wild_short : length wild ≤ k
    behind : length s ≤ length cp + 1
    fuel : Fuel f wild s cp

  abbrev Next : ℕ → Type 0
  Next f = (wild s m cp : Bytes) → Inv f wild s m cp → Decides G (search_loop f wild s (some m) cp)

  -- A step back: the last star takes one more byte.
  retry-Decides :
      (f : ℕ) (wild : Bytes) (c : ℕ) (s m cp : Bytes)
      → Next f
      → Inv (suc f) wild (c ∷ s) m cp
      → ¬ Matches wild (c ∷ s)
      → Decides G (retry (some m) cp (search_loop f))
  unfolding retry
  retry-Decides f wild c s m [] next i n = next m [] m [] (record {
    now = λ d. i.back (skip refl d);
    later = λ g. pick n (i.either g);
    either = λ g. inr (pick n (i.either g));
    back = i.back;
    m_short = i.m_short;
    wild_short = i.m_short;
    behind = omega arith;
    fuel = omega arith;
  })
  retry-Decides f wild c s m (x ∷ cp) next i n = next m (x ∷ cp) m cp (record {
    now = λ d. i.back (skip refl d);
    later = λ g. pick n (i.either g);
    either = λ g. star_split (pick n (i.either g));
    back = λ d. i.back (grow refl d);
    m_short = i.m_short;
    wild_short = i.m_short;
    behind = omega arith;
    fuel = retry_fuel;
  })
    where
      retry_fuel : length cp * (k + 1) + length m + 1 < f
      retry_fuel = let h = i.m_short in let e = i.fuel in grind arith

  -- A star: the question has become whether `star ∷ ws` matches here.
  at_star-Decides :
      (f : ℕ) (ws : Bytes) (c : ℕ) (s : Bytes)
      → Next f
      → (Matches (star ∷ ws) (c ∷ s) → G)
      → (G → Matches (star ∷ ws) (c ∷ s))
      → length ws ≤ k
      → length s * (k + 1) + length ws + 1 < f
      → Decides G (at_star ws (c ∷ s) s (search_loop f))
  unfolding at_star
  at_star-Decides f [] c s next now later short fuel = now (star_all (c ∷ s))
  at_star-Decides f (w ∷ ws) c s next now later short fuel =
      next (w ∷ ws) (c ∷ s) (w ∷ ws) s (record {
        now = λ d. now (skip refl d);
        later = later;
        either = λ g. star_split (later g);
        back = λ d. now (grow refl d);
        m_short = short;
        wild_short = short;
        behind = omega arith;
        fuel = fuel;
      })

  -- A byte that fits
  Inv-byte :
      {f w c : ℕ} {ws s m cp : Bytes}
      → w ≢ star
      → fits w c ≡ true
      → Inv (suc f) (w ∷ ws) (c ∷ s) m cp
      → Inv f ws s m cp
  Inv-byte {f} {w} {c} {ws} {s} {m} {cp} n h i = record {
    now = λ d. i.now (byte n h d);
    later = λ g. star-drop_byte s n (i.later g);
    either = λ g. elim (i.either g) [ inl d ↦ inl (Matches-byte n d).1 | inr d ↦ inr d ];
    back = i.back;
    m_short = i.m_short;
    wild_short = omega arith;
    behind = omega arith;
    fuel = byte_fuel s i.fuel;
  }
    where
      byte_fuel : (s : Bytes) → length cp * (k + 1) + suc (length ws) + 1 < suc f → Fuel f ws s cp
      byte_fuel [] h = omega arith
      byte_fuel (x ∷ s) h = omega arith

  search_loop-Decides : (f : ℕ) → Next f
  unfolding search_loop
  search_loop-Decides zero wild [] m cp i = let h = i.fuel in absurd (omega arith)
  search_loop-Decides zero wild (c ∷ s) m cp i = let h = i.fuel in absurd (omega arith)
  search_loop-Decides (suc f) wild [] m cp i =
      Decides-answer G (only_stars wild) (λ h. i.now (only_stars→Matches wild h))
        (λ g. Matches-nil (star_at_end (i.later g)))
  search_loop-Decides (suc f) [] (c ∷ s) m cp i =
      retry-Decides f [] c s m cp (search_loop-Decides f) i λ d. elim d [ ]
  search_loop-Decides (suc f) (w ∷ ws) (c ∷ s) m cp i = elim (Bool-cases (w == star)) [
    | inl e ↦
        let p : w ≡ star = (==_iff w star).0 e in
        rw e (
          at_star-Decides f ws c s (search_loop-Decides f) (λ d. i.now (rw p d))
            (λ g. star-star (rw p at (i.later g))) (star_short i.wild_short)
            (star_fuel i.behind i.fuel))
    | inr e ↦
        let n : w ≢ star = (λ p. cc ((==_iff w star).1 p)) in
        rw e (
          if_elim (Decides G) (fits w c) _ _ (λ h. search_loop-Decides f ws s m cp (Inv-byte n h i))
            (λ h.
              retry-Decides f (w ∷ ws) c s m cp (search_loop-Decides f) i
                λ d. cc (Matches-byte n d).0))
  ]
    where
      star_short : suc (length ws) ≤ k → length ws ≤ k
      star_short h = omega arith

      star_fuel :
          suc (length s) ≤ length cp + 1
          → length cp * (k + 1) + suc (length ws) + 1 < suc f
          → length s * (k + 1) + length ws + 1 < f
      star_fuel h e = grind arith

  -- Up to the first star the texts go together; then the search begins.
  first_star-Decides :
      (f : ℕ) (ws : Bytes) (c : ℕ) (s : Bytes)
      → G ↔ Matches (star ∷ ws) (c ∷ s)
      → length ws ≤ k
      → length s * (k + 1) + length ws + 2 < f
      → Decides G (search_loop f (star ∷ ws) (c ∷ s) none [])
  unfolding search_loop
  first_star-Decides zero ws c s e short fuel = absurd (omega arith)
  first_star-Decides (suc f) ws c s e short fuel =
      at_star-Decides f ws c s (search_loop-Decides f) e.1 e.0 short (omega arith)

  compare_prefix-Decides :
      (f : ℕ) (wild s : Bytes)
      → G ↔ Matches wild s
      → length wild ≤ k
      → (length s + 1) * (k + 1) + 2 < f
      → Decides G (compare_prefix f wild s)
  unfolding compare_prefix
  compare_prefix-Decides zero wild [] e short fuel = absurd (omega arith)
  compare_prefix-Decides (suc f) wild [] e short fuel =
      unfold search_loop in
      Decides-answer G (only_stars wild) (λ h. e.1 (only_stars→Matches wild h))
        (λ g. Matches-nil (e.0 g))
  compare_prefix-Decides f [] (c ∷ s) e short fuel = λ g. nothing (e.0 g)
    where
      nothing : Matches [] (c ∷ s) → ⊥
      nothing d = elim d [ ]
  compare_prefix-Decides f (w ∷ ws) (c ∷ s) e short fuel = elim (Bool-cases (w == star)) [
    | inl h ↦
        let p : w ≡ star = (==_iff w star).0 h in
        rw (h, p)
          (first_star-Decides f ws c s (λ g. rw p at (e.0 g), λ d. e.1 (rw p d)) (omega arith)
            (first_fuel short fuel))
    | inr h ↦
        let n : w ≢ star = (λ p. cc ((==_iff w star).1 p)) in
        rw h (
          if_elim (Decides G) (not (w == c) && not (w == b'?')) _ _
            (λ t. λ g. mismatch t (Matches-byte n (e.0 g)).0)
            (λ t.
              compare_prefix-Decides f ws s
                (λ g. (Matches-byte n (e.0 g)).1, λ d. e.1 (byte n (match_of t) d)) (omega arith)
                (rest_fuel short fuel)))
  ]
    where
      first_fuel :
          suc (length ws) ≤ k
          → (suc (length s) + 1) * (k + 1) + 2 < f
          → length s * (k + 1) + length ws + 2 < f
      first_fuel h e = grind arith

      rest_fuel :
          suc (length ws) ≤ k
          → (suc (length s) + 1) * (k + 1) + 2 < f
          → (length s + 1) * (k + 1) + 2 < f
      rest_fuel h e = grind arith

      mismatch : (not (w == c) && not (w == b'?')) ≡ true → fits w c ≡ true → ⊥
      mismatch t h = ground arith

      match_of : (not (w == c) && not (w == b'?')) ≡ false → fits w c ≡ true
      match_of t = ground arith

-- `WildCmp` ends, reads nothing through a null pointer, and answers whether the text matches.
pub wild_cmp-Decides :
    (cs : CaseSensitivity) (wild s : Bytes)
    → Decides (Matches (fold_case cs wild) (fold_case cs s)) (wild_cmp cs wild s)
unfolding wild_cmp
wild_cmp-Decides cs wild s =
    let w = fold_case cs wild in
    let t = fold_case cs s in
    compare_prefix-Decides (Matches w t) (length w) (fuel_for w t) w t (λ d. d, λ d. d)
      (omega arith) (grind arith)
