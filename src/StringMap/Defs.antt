-- ===== src/StringMap/Defs.antt =====
-- The operations of the map that the program uses.
use znc_playground.Prelude.{
  true, List, [], ◌∷◌, Option, none, some, ◌≡◌, if◌then◌else◌, Bytes, bytes_eq, All,
}
use znc_playground.StringMap.Order.{lt_bytes}

abbrev pub StringMap {ℓ} : Type ℓ → Type ℓ
StringMap V = List (Bytes × V)

module _ {ℓ} {V : Type ℓ} where
  unfoldable pub find : Bytes → StringMap V → Option V
  unfolding bytes_eq
  find k [] = none
  find k ((j, v) ∷ m) = if bytes_eq j k then some v else find k m

  -- `m[k] = v`
  unfoldable pub insert : Bytes → V → StringMap V → StringMap V
  unfolding bytes_eq lt_bytes
  insert k v [] = (k, v) ∷ []
  insert k v ((j, w) ∷ m) =
      if bytes_eq j k
      then (k, v) ∷ m
      else if lt_bytes k j
      then (k, v) ∷ (j, w) ∷ m
      else (j, w) ∷ insert k v m

  unfoldable pub erase : Bytes → StringMap V → StringMap V
  unfolding bytes_eq
  erase k [] = []
  erase k ((j, w) ∷ m) = if bytes_eq j k then erase k m else (j, w) ∷ erase k m

  -- Every key is below all the keys behind it.
  abbrev pub IsSorted : StringMap V → Type 0
  IsSorted [] = Unit
  IsSorted ((k, v) ∷ m) = All (λ (e : Bytes × V). lt_bytes k e.0 ≡ true) m × IsSorted m
