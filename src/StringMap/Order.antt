-- ===== src/StringMap/Order.antt =====
-- The order of `std::string`: byte by byte, a proper prefix before what it begins.
use znc_playground.Prelude.{
  ◌≡◌, refl, Bool, true, false, ◌&&◌, ◌||◌, [], ◌∷◌, ltb, ◌==◌, arith, Bytes, bytes_eq,
}

unfoldable pub lt_bytes : Bytes → Bytes → Bool
lt_bytes [] [] = false
lt_bytes [] (y ∷ t) = true
lt_bytes (x ∷ s) [] = false
lt_bytes (x ∷ s) (y ∷ t) = ltb x y || x == y && lt_bytes s t

pub lt_bytes_irrefl : (s : Bytes) → lt_bytes s s ≡ false
unfolding lt_bytes
lt_bytes_irrefl [] = refl
lt_bytes_irrefl (x ∷ s) = ground (arith, lt_bytes_irrefl s)

pub lt_bytes_asymm : (s t : Bytes) → lt_bytes s t ≡ true → lt_bytes t s ≡ false
unfolding lt_bytes
lt_bytes_asymm [] [] h = ground arith
lt_bytes_asymm [] (y ∷ t) h = refl
lt_bytes_asymm (x ∷ s) [] h = ground arith
lt_bytes_asymm (x ∷ s) (y ∷ t) h = ground (arith, lt_bytes_asymm s t)

pub lt_bytes_trans :
    (s t u : Bytes) → lt_bytes s t ≡ true → lt_bytes t u ≡ true → lt_bytes s u ≡ true
unfolding lt_bytes
lt_bytes_trans [] [] u h k = ground arith
lt_bytes_trans [] (y ∷ t) [] h k = ground arith
lt_bytes_trans [] (y ∷ t) (z ∷ u) h k = refl
lt_bytes_trans (x ∷ s) [] u h k = ground arith
lt_bytes_trans (x ∷ s) (y ∷ t) [] h k = ground arith
lt_bytes_trans (x ∷ s) (y ∷ t) (z ∷ u) h k = ground (arith, lt_bytes_trans s t u)

-- Of two different keys one is the smaller.
pub lt_bytes_total :
    (s t : Bytes) → bytes_eq s t ≡ false → lt_bytes t s ≡ false → lt_bytes s t ≡ true
unfolding lt_bytes bytes_eq
lt_bytes_total [] [] h k = ground arith
lt_bytes_total [] (y ∷ t) h k = refl
lt_bytes_total (x ∷ s) [] h k = ground arith
lt_bytes_total (x ∷ s) (y ∷ t) h k = ground (arith, lt_bytes_total s t)

pub lt→ne : (s t : Bytes) → lt_bytes s t ≡ true → bytes_eq s t ≡ false
unfolding lt_bytes bytes_eq
lt→ne [] [] h = ground arith
lt→ne [] (y ∷ t) h = refl
lt→ne (x ∷ s) [] h = ground arith
lt→ne (x ∷ s) (y ∷ t) h = ground (arith, lt→ne s t)
