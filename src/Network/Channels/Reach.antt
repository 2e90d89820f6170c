-- ===== src/Network/Channels/Reach.antt =====
-- The calls that change the channel list, as steps, and what holds of the list after any of them.
use znc_playground.Network.Channels.Defs.{
  ListedChan, new_chan, answers_to, first_chan, first_place, find_chan, is_some, add_chan, is_empty,
  add_chan_name, del_place, del_chan, Reordered, is_named, move_place, move_chan, swap_places,
  swap_chans, erase_at,
}
use znc_playground.Network.Channels.Distinct.{
  Differ, AreDistinct, Differ-sym, AreDistinct-erase_at, AreDistinct-insert_at, Differ-erased,
  AreDistinct-swap,
}
use znc_playground.Prelude.{
  ℕ, ◌≡◌, sym, Bool, false, ◌||◌, List, [], ◌∷◌, ◌++◌, Option, none, some, All, All-append, arith,
  get_elem?, Option-cases, inl, inr, if_elim, leb, length, Bytes,
}
use znc_playground.Text.Compare.{equals, insensitive}
use znc_playground.Text.Trim.{trim_left}

-- A text that names a channel as it stands: neither `FindChan` nor the constructor of `CChan` changes
-- it.
abbrev pub IsChanName : Bytes → Bytes → Bytes → Type 0
IsChanName prefixes status name =
    (trim_left status name ≡ name) × ((new_chan prefixes name false).name ≡ name)

-- A call that changes the list, where the server said `status` and `prefixes`
pub data Step : List ListedChan → List ListedChan → Type 0 where
  added : (chans : List ListedChan) (c : ListedChan) → Step chans (add_chan c chans).0
  named :
      (chans : List ListedChan) (prefixes status name : Bytes) (in_config : Bool)
      → IsChanName prefixes status name
      → Step chans (add_chan_name prefixes status name in_config chans).0
  removed : (chans : List ListedChan) (name : Bytes) → Step chans (del_chan name chans).0
  moved :
      (chans : List ListedChan) (name : Bytes) (index : ℕ)
      → Step chans (move_chan name index chans).0
  swapped :
      (chans : List ListedChan) (name_a name_b : Bytes)
      → Step chans (swap_chans name_a name_b chans).0

-- The lists that calls lead to from the empty one
pub data Reached : List ListedChan → Type 0 where
  start : Reached []
  step : {chans later : List ListedChan} → Reached chans → Step chans later → Reached later

AreDistinct-append :
    (chans : List ListedChan) (c : ListedChan)
    → AreDistinct chans
    → All (λ d. Differ d c) chans
    → AreDistinct (chans ++ c ∷ [])
AreDistinct-append [] c h p = (tt, tt)
AreDistinct-append (d ∷ chans) c h p =
    (All-append (Differ d) chans c h.0 p.0, AreDistinct-append chans c h.1 p.1)

-- No channel that the test takes
all_refused :
    (test : ListedChan → Bool) (chans : List ListedChan)
    → is_some (first_chan test chans) ≡ false
    → All (λ d. test d ≡ false) chans
unfolding first_chan
all_refused test [] e = tt
all_refused test (d ∷ chans) e = (ground arith, all_refused test chans (ground arith))

add_chan-AreDistinct :
    (chans : List ListedChan) (c : ListedChan)
    → AreDistinct chans
    → AreDistinct (add_chan c chans).0
unfolding add_chan
add_chan-AreDistinct chans c h =
    if_elim (λ (r : List ListedChan × Bool). AreDistinct r.0)
      (is_some (first_chan (λ d. equals insensitive d.name c.name) chans)) _ _ (λ e. h)
      (λ e. AreDistinct-append chans c h (all_refused _ chans e))

del_place-AreDistinct :
    (o : Option ℕ) (chans : List ListedChan) → AreDistinct chans → AreDistinct (del_place o chans).0
unfolding del_place
del_place-AreDistinct none chans h = h
del_place-AreDistinct (some i) chans h = AreDistinct-erase_at i chans h

move_place-AreDistinct :
    (index : ℕ) (o : Option ℕ) (chans : List ListedChan)
    → AreDistinct chans
    → AreDistinct (move_place index o chans).0
move_place-AreDistinct index none chans h = h
move_place-AreDistinct index (some i) chans h = elim (Option-cases (get_elem? chans i)) [
  | inl e ↦ rw e h
  | inr (c, e) ↦ rw e (
      AreDistinct-insert_at index c (erase_at i chans) (Differ-erased i chans c h e)
        (AreDistinct-erase_at i chans h))
]

swap_places-AreDistinct :
    (o p : Option ℕ) (chans : List ListedChan)
    → AreDistinct chans
    → AreDistinct (swap_places o p chans).0
swap_places-AreDistinct none p chans h = h
swap_places-AreDistinct (some i) none chans h = h
swap_places-AreDistinct (some i) (some j) chans h = elim (Option-cases (get_elem? chans i)) [
  | inl e ↦ rw e h
  | inr (c, e) ↦ elim (Option-cases (get_elem? chans j)) [
    | inl k ↦ rw e (rw k h)
    | inr (d, k) ↦ rw e (rw k (AreDistinct-swap i j chans c d e k h))
  ]
]

All-Differ :
    (name : Bytes) (c : ListedChan) (chans : List ListedChan)
    → name ≡ c.name
    → All (λ d. answers_to name d ≡ false) chans
    → All (λ d. Differ d c) chans
All-Differ name c [] e h = tt
All-Differ name c (d ∷ chans) e h = (Differ-sym c d (rw (sym e) h.0), All-Differ name c chans e h.1)

add_chan_name-AreDistinct :
    (prefixes status name : Bytes) (in_config : Bool) (chans : List ListedChan)
    → IsChanName prefixes status name
    → AreDistinct chans
    → AreDistinct (add_chan_name prefixes status name in_config chans).0
unfolding add_chan_name new_chan find_chan
add_chan_name-AreDistinct prefixes status name in_config chans n h =
    if_elim (λ (r : List ListedChan × Bool). AreDistinct r.0)
      (is_empty name || is_some (find_chan status name chans)) _ _ (λ e. h)
      (λ e. AreDistinct-append chans (new_chan prefixes name in_config) h (
        All-Differ name (new_chan prefixes name in_config) chans (sym n.1)
          (rw (sym n.0) (all_refused (answers_to (trim_left status name)) chans (ground arith)))))

Step-AreDistinct :
    {chans later : List ListedChan} → Step chans later → AreDistinct chans → AreDistinct later
unfolding del_chan move_chan swap_chans
Step-AreDistinct (Step.added chans c) h = add_chan-AreDistinct chans c h
Step-AreDistinct (Step.named chans prefixes status name in_config n) h =
    add_chan_name-AreDistinct prefixes status name in_config chans n h
Step-AreDistinct (Step.removed chans name) h =
    del_place-AreDistinct (first_place (answers_to name) chans) chans h
Step-AreDistinct (Step.moved chans name index) h =
    if_elim (λ (r : List ListedChan × Reordered). AreDistinct r.0) (leb (length chans) index) _ _
      (λ e. h) (λ e. move_place-AreDistinct index (first_place (is_named name) chans) chans h)
Step-AreDistinct (Step.swapped chans name_a name_b) h =
    swap_places-AreDistinct (first_place (is_named name_a) chans)
      (first_place (is_named name_b) chans) chans h

-- In every list that calls lead to from the empty one, no channel has the name of one behind it, in
-- whatever case, where `AddChan` of a name is called with the name of a channel as it stands: one that
-- neither `FindChan` nor the constructor of `CChan` changes.
pub Reached-AreDistinct : {chans : List ListedChan} → Reached chans → AreDistinct chans
Reached-AreDistinct Reached.start = tt
Reached-AreDistinct (Reached.step before s) = Step-AreDistinct s (Reached-AreDistinct before)
