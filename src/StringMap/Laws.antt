-- ===== src/StringMap/Laws.antt =====
-- Lookup after a change, and the order of the keys.
use znc_playground.Prelude.{
  true, [], ◌∷◌, ◌++◌, none, some, ◌≡◌, refl, ap, ◌∙◌, inl, inr, if◌then◌else◌, Bytes, bytes_eq,
  bytes_eq_iff, All, arith, Bool-cases,
}
use znc_playground.StringMap.Defs.{StringMap, find, insert, erase, IsSorted}
use znc_playground.StringMap.Order.{lt_bytes, lt_bytes_asymm, lt_bytes_trans, lt_bytes_total, lt→ne}

module _ {ℓ} {V : Type ℓ} where
  pub find-insert :
      (k j : Bytes) (v : V) (m : StringMap V)
      → find j (insert k v m) ≡ (if bytes_eq k j then some v else find j m)
  unfolding find insert
  find-insert k j v [] = refl
  find-insert k j v ((i, w) ∷ m) =
      ground (arith, bytes_eq_iff k j, bytes_eq_iff i k, bytes_eq_iff i j, find-insert k j v m)

  pub find-erase :
      (k j : Bytes) (m : StringMap V)
      → find j (erase k m) ≡ (if bytes_eq k j then none else find j m)
  unfolding find erase
  find-erase k j [] = ground arith
  find-erase k j ((i, w) ∷ m) =
      ground (arith, bytes_eq_iff k j, bytes_eq_iff i k, bytes_eq_iff i j, find-erase k j m)

  pub erase-insert : (k : Bytes) (v : V) (m : StringMap V) → erase k (insert k v m) ≡ erase k m
  unfolding erase insert
  erase-insert k v [] = rw ((bytes_eq_iff k k).1 refl) refl
  erase-insert k v ((j, w) ∷ m) =
      ground (arith, bytes_eq_iff k k, bytes_eq_iff j k, erase-insert k v m)

  pub find-inserted : (k : Bytes) (v : V) (m : StringMap V) → find k (insert k v m) ≡ some v
  find-inserted k v m = find-insert k k v m ∙ rw ((bytes_eq_iff k k).1 refl) refl

  abbrev Below : Bytes → StringMap V → Type 0
  Below k m = All (λ (e : Bytes × V). lt_bytes k e.0 ≡ true) m

  Below-trans : (k j : Bytes) (m : StringMap V) → lt_bytes k j ≡ true → Below j m → Below k m
  Below-trans k j [] h b = tt
  Below-trans k j ((i, w) ∷ m) h b = (lt_bytes_trans k j i h b.0, Below-trans k j m h b.1)

  Below-insert :
      (i k : Bytes) (v : V) (m : StringMap V)
      → lt_bytes i k ≡ true
      → Below i m
      → Below i (insert k v m)
  unfolding insert
  Below-insert i k v [] h b = (h, tt)
  Below-insert i k v ((j, w) ∷ m) h b = elim (Bool-cases (bytes_eq j k)) [
    | inl e ↦ rw e (h, b.1)
    | inr e ↦ elim (Bool-cases (lt_bytes k j)) [
      | inl l ↦ rw (e, l) (h, b)
      | inr l ↦ rw (e, l) (b.0, Below-insert i k v m h b.1)
    ]
  ]

  pub insert-IsSorted : (k : Bytes) (v : V) (m : StringMap V) → IsSorted m → IsSorted (insert k v m)
  unfolding insert
  insert-IsSorted k v [] s = (tt, tt)
  insert-IsSorted k v ((j, w) ∷ m) s = elim (Bool-cases (bytes_eq j k)) [
    | inl e ↦ rw e (rw ((bytes_eq_iff j k).0 e) at s)
    | inr e ↦ elim (Bool-cases (lt_bytes k j)) [
      | inl l ↦ rw (e, l) ((l, Below-trans k j m l s.0), s)
      | inr l ↦
          rw (e, l) (Below-insert j k v m (lt_bytes_total j k e l) s.0, insert-IsSorted k v m s.1)
    ]
  ]

  -- A key above all others goes to the end.
  pub insert-last :
      (k : Bytes) (v : V) (m rest : StringMap V)
      → IsSorted (m ++ (k, v) ∷ rest)
      → insert k v m ≡ m ++ (k, v) ∷ []
  unfolding insert
  insert-last k v [] rest s = refl
  insert-last k v ((j, w) ∷ m) rest s =
      let below : lt_bytes j k ≡ true = head_of m s.0 in
      rw (lt→ne j k below, lt_bytes_asymm j k below) (ap (◌∷◌ (j, w)) (insert-last k v m rest s.1))
    where
      head_of : (m : StringMap V) → Below j (m ++ (k, v) ∷ rest) → lt_bytes j k ≡ true
      head_of [] b = b.0
      head_of (e ∷ m) b = head_of m b.1
