-- ===== src/StringMap/Last.antt =====
-- A key above all others: the entry at the end of the map.
use znc_playground.Prelude.{
  true, [], ◌∷◌, ◌++◌, none, some, ◌≡◌, refl, ap, Bytes, bytes_eq_iff, All, arith,
}
use znc_playground.StringMap.Defs.{StringMap, find, insert, IsSorted}
use znc_playground.StringMap.Order.{lt_bytes, lt_bytes_asymm, lt→ne}

module _ {ℓ} {V : Type ℓ} (k : Bytes) where
  abbrev pub IsAbove : StringMap V → Type 0
  IsAbove m = All (λ (e : Bytes × V). lt_bytes e.0 k ≡ true) m

  pub find-IsAbove : (m : StringMap V) → IsAbove m → find k m ≡ none
  unfolding find
  find-IsAbove [] h = refl
  find-IsAbove ((j, w) ∷ m) h = rw (lt→ne j k h.0) (find-IsAbove m h.1)

  pub find-last : (m : StringMap V) (u : V) → IsAbove m → find k (m ++ (k, u) ∷ []) ≡ some u
  unfolding find
  find-last [] u h = ground (arith, bytes_eq_iff k k)
  find-last ((j, w) ∷ m) u h = rw (lt→ne j k h.0) (find-last m u h.1)

  pub insert-IsAbove : (v : V) (m : StringMap V) → IsAbove m → insert k v m ≡ m ++ (k, v) ∷ []
  unfolding insert
  insert-IsAbove v [] h = refl
  insert-IsAbove v ((j, w) ∷ m) h =
      rw (lt→ne j k h.0, lt_bytes_asymm j k h.0) (ap (◌∷◌ (j, w)) (insert-IsAbove v m h.1))

  pub insert-replace :
      (v u : V) (m : StringMap V) → IsAbove m → insert k v (m ++ (k, u) ∷ []) ≡ m ++ (k, v) ∷ []
  unfolding insert
  insert-replace v u [] h = ground (arith, bytes_eq_iff k k)
  insert-replace v u ((j, w) ∷ m) h =
      rw (lt→ne j k h.0, lt_bytes_asymm j k h.0) (ap (◌∷◌ (j, w)) (insert-replace v u m h.1))

  Above-at :
      (j : Bytes) (v : V) (m rest : StringMap V)
      → All (λ (e : Bytes × V). lt_bytes j e.0 ≡ true) (m ++ (k, v) ∷ rest)
      → lt_bytes j k ≡ true
  Above-at j v [] rest b = b.0
  Above-at j v (e ∷ m) rest b = Above-at j v m rest b.1

  pub IsSorted-IsAbove : (v : V) (m rest : StringMap V) → IsSorted (m ++ (k, v) ∷ rest) → IsAbove m
  IsSorted-IsAbove v [] rest s = tt
  IsSorted-IsAbove v ((j, w) ∷ m) rest s = (Above-at j v m rest s.0, IsSorted-IsAbove v m rest s.1)
