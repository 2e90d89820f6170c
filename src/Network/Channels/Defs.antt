-- ===== src/Network/Channels/Defs.antt =====
-- The channels of a network, in their order, and the calls that change the list.
use znc_playground.Prelude.{
  ℕ, zero, suc, Bool, true, false, ◌||◌, List, [], ◌∷◌, ◌++◌, Option, none, some, if◌then◌else◌,
  leb, length, get_elem?, set, Bytes, codes,
}
use znc_playground.Text.Compare.{equals, insensitive}
use znc_playground.Text.Token.{token}
use znc_playground.Text.Trim.{contains_char, trim_left}

-- What the list reads of a `CChan`: `m_sName`, `m_sKey`, `m_bIsOn`, `m_bDisabled`, `m_uJoinTries` and
-- `m_bInConfig`
pub record ListedChan : Type 0 where
  pub name : Bytes
  pub key : Bytes
  pub is_on : Bool
  pub disabled : Bool
  pub join_tries : ℕ
  pub in_config : Bool

-- `IsChan`, for the characters that channel names begin with
unfoldable pub is_chan : Bytes → Bytes → Bool
unfolding contains_char
is_chan prefixes [] = false
is_chan [] (c ∷ name) = true
is_chan (p ∷ prefixes) (c ∷ name) = contains_char (p ∷ prefixes) c

unfoldable pub chan_name : Bytes → Bytes → Bytes
unfolding is_chan
chan_name prefixes name = if is_chan prefixes name then name else codes "#" ++ name

-- The constructor of `CChan`, without a configuration
unfoldable pub new_chan : Bytes → Bytes → Bool → ListedChan
unfolding chan_name token
new_chan prefixes text in_config = record {
  name = chan_name prefixes (token 0 false (codes " ") false text);
  key = token 1 false (codes " ") false text;
  is_on = false;
  disabled = false;
  join_tries = 0;
  in_config = in_config;
}

abbrev pub answers_to : Bytes → ListedChan → Bool
answers_to name c = equals insensitive name c.name

-- The first channel that the test takes, and its place
unfoldable pub first_chan : (ListedChan → Bool) → List ListedChan → Option ListedChan
first_chan test [] = none
first_chan test (c ∷ chans) = let later = first_chan test chans in if test c then some c else later

abbrev pub one_later : Option ℕ → Option ℕ
one_later none = none
one_later (some i) = some (suc i)

unfoldable pub first_place : (ListedChan → Bool) → List ListedChan → Option ℕ
first_place test [] = none
first_place test (c ∷ chans) =
    let later = first_place test chans in if test c then some 0 else one_later later

-- `FindChan`; `status` is what the server said as `STATUSMSG`, and empty without a connection.
unfoldable pub find_chan : Bytes → Bytes → List ListedChan → Option ListedChan
unfolding equals trim_left first_chan
find_chan status name chans = first_chan (answers_to (trim_left status name)) chans

abbrev pub is_some {ℓ} : {A : Type ℓ} → Option A → Bool
is_some none = false
is_some (some a) = true

-- `AddChan` of a channel
unfoldable pub add_chan : ListedChan → List ListedChan → List ListedChan × Bool
unfolding equals first_chan
add_chan c chans =
    if is_some (first_chan (λ d. equals insensitive d.name c.name) chans)
    then (chans, false)
    else (chans ++ c ∷ [], true)

abbrev pub is_empty : Bytes → Bool
is_empty [] = true
is_empty (c ∷ s) = false

-- `AddChan` of a name
unfoldable pub add_chan_name :
    Bytes → Bytes → Bytes → Bool → List ListedChan → List ListedChan × Bool
unfolding find_chan new_chan
add_chan_name prefixes status name in_config chans =
    if is_empty name || is_some (find_chan status name chans)
    then (chans, false)
    else (chans ++ new_chan prefixes name in_config ∷ [], true)

unfoldable pub erase_at : ℕ → List ListedChan → List ListedChan
erase_at i [] = []
erase_at zero (c ∷ chans) = chans
erase_at (suc i) (c ∷ chans) = c ∷ erase_at i chans

unfoldable pub insert_at : ℕ → ListedChan → List ListedChan → List ListedChan
insert_at zero c chans = c ∷ chans
insert_at (suc i) c [] = c ∷ []
insert_at (suc i) c (d ∷ chans) = d ∷ insert_at i c chans

unfoldable pub del_place : Option ℕ → List ListedChan → List ListedChan × Bool
unfolding erase_at
del_place none chans = (chans, false)
del_place (some i) chans = (erase_at i chans, true)

-- `DelChan`
unfoldable pub del_chan : Bytes → List ListedChan → List ListedChan × Bool
unfolding equals first_place del_place
del_chan name chans = del_place (first_place (answers_to name) chans) chans

-- What the calls that reorder say
pub data Reordered : Type 0 where
  done invalid_index not_on : Reordered

abbrev pub is_named : Bytes → ListedChan → Bool
is_named name c = equals insensitive c.name name

abbrev pub move_to : ℕ → ℕ → Option ListedChan → List ListedChan → List ListedChan
move_to index i none chans = chans
move_to index i (some c) chans = insert_at index c (erase_at i chans)

abbrev pub move_place : ℕ → Option ℕ → List ListedChan → List ListedChan × Reordered
move_place index none chans = (chans, not_on)
move_place index (some i) chans = (move_to index i (get_elem? chans i) chans, done)

-- `MoveChan`
unfoldable pub move_chan : Bytes → ℕ → List ListedChan → List ListedChan × Reordered
unfolding equals first_place erase_at insert_at
move_chan name index chans =
    if leb (length chans) index
    then (chans, invalid_index)
    else move_place index (first_place (is_named name) chans) chans

-- `std::swap` of two elements
abbrev pub swap_found :
    ℕ → ℕ → Option ListedChan → Option ListedChan → List ListedChan → List ListedChan
swap_found i j (some c) (some d) chans = set (set chans i d) j c
swap_found i j _ _ chans = chans

abbrev pub swap_places : Option ℕ → Option ℕ → List ListedChan → List ListedChan × Reordered
swap_places (some i) (some j) chans =
    (swap_found i j (get_elem? chans i) (get_elem? chans j) chans, done)
swap_places _ _ chans = (chans, not_on)

-- `SwapChans`
unfoldable pub swap_chans : Bytes → Bytes → List ListedChan → List ListedChan × Reordered
unfolding equals first_place
swap_chans name_a name_b chans =
    swap_places (first_place (is_named name_a) chans) (first_place (is_named name_b) chans) chans
