-- ===== src/Config/Drain.antt =====
-- What repeated calls of `FindStringEntry` give.
use znc_playground.Config.Defs.{Config, config, Blocks}
use znc_playground.Config.Find.{find_string_vector, find_string_entry}
use znc_playground.Prelude.{
  ℕ, zero, suc, ◌≡◌, refl, ap, ◌∙◌, true, false, List, [], ◌∷◌, some, Bytes, bytes_eq_iff, length,
  Option-cases, inl, inr, arith,
}
use znc_playground.StringMap.{
  StringMap, find, insert, erase, erase-insert, find-inserted, find-erase,
}

-- `n` calls of `FindStringEntry`
unfoldable pub take_entries : ℕ → Bytes → Config → List Bytes × Config
unfolding find_string_entry
take_entries zero name c = ([], c)
take_entries (suc n) name c =
    let r = find_string_entry name [] c in
    let later = take_entries n name r.remaining in (r.value ∷ later.0, later.1)

abbrev no_values : List Bytes
no_values = []

-- The values of an entry, one by one
take_all :
    (name v : Bytes) (vs : List Bytes) (es : StringMap (List Bytes)) (bs : Blocks)
    → find name es ≡ some (v ∷ vs)
    → take_entries (length (v ∷ vs)) name (config es bs) ≡ (v ∷ vs, config (erase name es) bs)
unfolding take_entries find_string_entry
take_all name v [] es bs e = rw e refl
take_all name v (w ∷ vs) es bs e = rw e (
    ap (λ r. (v ∷ r.0, r.1))
      (take_all name w vs (insert name (w ∷ vs) es) bs (find-inserted name (w ∷ vs) es)
        ∙ ap (λ m. (w ∷ vs, config m bs)) (erase-insert name (w ∷ vs) es)))

none_left :
    (name : Bytes) (es : StringMap (List Bytes)) (bs : Blocks)
    → (find_string_entry name [] (config (erase name es) bs)).found ≡ false
unfolding find_string_entry
none_left name es bs = rw (find-erase name name es) (rw ((bytes_eq_iff name name).1 refl) refl)

-- Where `FindStringVector` finds a value `v` and others behind it, as many calls of `FindStringEntry`
-- give the same values in the same order and leave the configuration that `FindStringVector` leaves
-- when it erases, in which another call finds nothing.
pub take_entries-find_string_vector :
    (name v : Bytes) (vs : List Bytes) (c : Config)
    → (find_string_vector name true c).value ≡ v ∷ vs
    → (take_entries (length (v ∷ vs)) name c ≡ (v ∷ vs, (find_string_vector name true c).remaining))
      × ((find_string_entry name [] (find_string_vector name true c).remaining).found ≡ false)
unfolding find_string_vector
take_entries-find_string_vector name v vs (config es bs) h = elim (Option-cases (find name es)) [
  | inl e ↦ let gone : no_values ≡ v ∷ vs = rw e at h in absurd (ground arith)
  | inr (ws, e) ↦
      let same : ws ≡ v ∷ vs = rw e at h in
      rw e (take_all name v vs es bs (e ∙ ap some same), none_left name es bs)
]
