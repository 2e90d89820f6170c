-- ===== src/Network/Servers/Removal.antt =====
-- `DelServer`: which server goes, and what is left of the rotation.
use znc_playground.Network.Server.{Server}
use znc_playground.Network.Servers.Defs.{
  ServerList, Removed, current_place, is_target, find_target, erase_at, remove_place, del_server,
  is_place, decrement, size_mod,
}
use znc_playground.Prelude.{
  ℕ, zero, suc, ◌+◌, ◌-◌, ◌<◌, ◌≤◌, ◌≡◌, refl, ap, ◌∙◌, Bool, true, false, ◌||◌, ◌&&◌, List, [],
  ◌∷◌, Option, none, some, arith, ◌==◌, leb, ltb, length, get_elem?, if◌then◌else◌, Bool-cases,
  Option-cases, if_elim, inl, inr,
}

-- The first place, from `a` on, with a server to remove
unfoldable pub first_target : Server → ℕ → List Server → Option ℕ
unfolding is_target
first_target target a [] = none
first_target target a (s ∷ servers) =
    let later = first_target target (a + 1) servers in if is_target s target then some a else later

-- Whether the place `i` or one before it, from `a` on, is the current one
abbrev pub seen_by : Option ℕ → ℕ → ℕ → Bool
seen_by none a i = false
seen_by (some c) a i = leb a c && leb c i

abbrev pub with_seen : Bool → Option ℕ → ℕ → Option ℕ → Option (ℕ × Bool)
with_seen saw cur a none = none
with_seen saw cur a (some i) = some (i, saw || seen_by cur a i)

pub first_target-bound :
    (target : Server) (a : ℕ) (servers : List Server) (i : ℕ)
    → first_target target a servers ≡ some i
    → (a ≤ i) × (i < a + length servers)
unfolding first_target
first_target-bound target a [] i h = ground arith
first_target-bound target a (s ∷ servers) i h =
    ground (arith, first_target-bound target (a + 1) servers i)

seen_here :
    (saw : Bool) (cur : Option ℕ) (a : ℕ) → (saw || is_place a cur) ≡ (saw || seen_by cur a a)
seen_here saw none a = refl
seen_here saw (some c) a = ground arith

seen_later :
    (saw : Bool) (cur : Option ℕ) (a i : ℕ)
    → a < i
    → ((saw || is_place a cur) || seen_by cur (a + 1) i) ≡ (saw || seen_by cur a i)
seen_later saw none a i h = ground arith
seen_later saw (some c) a i h = ground arith

pub find_target-first_target :
    (target : Server) (cur : Option ℕ) (a : ℕ) (saw : Bool) (servers : List Server)
    → find_target target cur a saw servers ≡ with_seen saw cur a (first_target target a servers)
unfolding find_target first_target
find_target-first_target target cur a saw [] = refl
find_target-first_target target cur a saw (s ∷ servers) = elim (Bool-cases (is_target s target)) [
  | inl e ↦ rw e (ap (λ b. some (a, b)) (seen_here saw cur a))
  | inr e ↦ rw e (
      find_target-first_target target cur (a + 1) (saw || is_place a cur) servers
      ∙ elim (Option-cases (first_target target (a + 1) servers)) [
        | inl none_left ↦ rw none_left refl
        | inr (i, found) ↦ rw found (
            ap (λ b. some (i, b))
              (seen_later saw cur a i
                (let bound = first_target-bound target (a + 1) servers i found in omega arith)))
      ])
]

pub length-erase_at :
    (i : ℕ) (servers : List Server)
    → i < length servers
    → length (erase_at i servers) + 1 ≡ length servers
unfolding erase_at
length-erase_at i [] h = absurd (omega arith)
length-erase_at zero (s ∷ servers) h = omega arith
length-erase_at (suc i) (s ∷ servers) h = omega (arith, length-erase_at i servers (omega arith))

pub get-erase_at-before :
    (i j : ℕ) (servers : List Server)
    → j < i
    → get_elem? (erase_at i servers) j ≡ get_elem? servers j
unfolding erase_at
get-erase_at-before i j [] h = refl
get-erase_at-before zero j (s ∷ servers) h = absurd (omega arith)
get-erase_at-before (suc i) zero (s ∷ servers) h = refl
get-erase_at-before (suc i) (suc j) (s ∷ servers) h = get-erase_at-before i j servers (omega arith)

pub get-erase_at-after :
    (i j : ℕ) (servers : List Server)
    → i ≤ j
    → get_elem? (erase_at i servers) j ≡ get_elem? servers (suc j)
unfolding erase_at
get-erase_at-after i j [] h = refl
get-erase_at-after zero j (s ∷ servers) h = refl
get-erase_at-after (suc i) zero (s ∷ servers) h = absurd (omega arith)
get-erase_at-after (suc i) (suc j) (s ∷ servers) h = get-erase_at-after i j servers (omega arith)

-- What is left when the server at place `i` is removed: the index follows the servers behind it.
abbrev pub without : ServerList → ℕ → ServerList
without l i = record {
  servers = erase_at i l.servers;
  idx = if ltb i l.idx then l.idx - 1 else l.idx;
}

decrement_lem : (i : ℕ) → 0 < i → i < size_mod → decrement i ≡ i - 1
decrement_lem i positive bound = omega arith

module _ (l : ServerList) (i : ℕ) (bound : l.idx < size_mod) (small : i < length l.servers) where
  is_current-idx :
      is_place i (current_place l) ≡ true
      → (if l.idx == 0 then 0 else l.idx - 1) ≡ (if ltb i l.idx then l.idx - 1 else l.idx)
  unfolding current_place
  is_current-idx h = ground arith

  seen-idx :
      is_place i (current_place l) ≡ false
      → (if seen_by (current_place l) 0 i then l.idx else decrement l.idx)
        ≡ (if ltb i l.idx then l.idx - 1 else l.idx)
  unfolding current_place
  seen-idx h = ground (arith, decrement_lem l.idx)

  remove_place-without :
      (remove_place l (some (i, seen_by (current_place l) 0 i))).list ≡ without l i
  unfolding remove_place
  remove_place-without =
      if_elim (λ (r : Removed). r.list ≡ without l i) (is_place i (current_place l)) _ _
        (λ h. ap (λ j. record { servers = erase_at i l.servers; idx = j }) (is_current-idx h))
        (λ h. ap (λ j. record { servers = erase_at i l.servers; idx = j }) (seen-idx h))

module _ (l : ServerList) (target : Server) (i : ℕ) (bound : l.idx < size_mod)
    (found : first_target target 0 l.servers ≡ some i) where
  del_server-remove_place :
      del_server l target ≡ remove_place l (some (i, seen_by (current_place l) 0 i))
  unfolding del_server
  del_server-remove_place = ap (remove_place l) (
      find_target-first_target target (current_place l) 0 false l.servers
      ∙ ap (with_seen false (current_place l) 0) found)

  small : i < length l.servers
  small = let b = first_target-bound target 0 l.servers i found in omega arith

  pub del_server-without : (del_server l target).list ≡ without l i
  del_server-without =
      ap (λ (r : Removed). r.list) del_server-remove_place ∙ remove_place-without l i bound small
