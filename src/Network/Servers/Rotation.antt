-- ===== src/Network/Servers/Rotation.antt =====
-- `GetNextServer` and `GetCurrentServer` when `DelServer` takes a server away.
use znc_playground.Network.Server.{Server}
use znc_playground.Network.Servers.Defs.{
  ServerList, current_place, get_current_server, wrapped_idx, get_next_server, erase_at, del_server,
  size_mod, place_server,
}
use znc_playground.Network.Servers.Removal.{
  first_target, first_target-bound, length-erase_at, get-erase_at-before, get-erase_at-after,
  without, del_server-without,
}
use znc_playground.Prelude.{
  ℕ, zero, suc, ◌-◌, ◌<◌, ◌≤◌, ◌≡◌, ◌≢◌, refl, ap, sym, ◌∙◌, Bool, List, [], ◌∷◌, Option, none,
  some, arith, ◌==◌, leb, ltb, length, get_elem?, if◌then◌else◌, if_elim,
}

-- A place in the list without the one at `i`
abbrev shifted : ℕ → ℕ → ℕ
shifted i j = if ltb i j then j - 1 else j

get-shifted :
    (i j : ℕ) (servers : List Server)
    → i ≢ j
    → get_elem? (erase_at i servers) (shifted i j) ≡ get_elem? servers j
get-shifted i j servers h =
    if_elim (λ k. get_elem? (erase_at i servers) k ≡ get_elem? servers j) (ltb i j) (j - 1) j
      (λ e.
        get-erase_at-after i (j - 1) servers (ground arith) ∙ ap (get_elem? servers) (ground arith))
      (λ e. get-erase_at-before i j servers (ground arith))

pub get-beyond : (j : ℕ) (servers : List Server) → length servers ≤ j → get_elem? servers j ≡ none
get-beyond j [] h = refl
get-beyond zero (s ∷ servers) h = absurd (omega arith)
get-beyond (suc j) (s ∷ servers) h = get-beyond j servers (omega arith)

pub get_next_server-get :
    (l : ServerList) (advance : Bool)
    → (get_next_server l advance).0 ≡ get_elem? l.servers (wrapped_idx l)
unfolding get_next_server
get_next_server-get l advance =
    if_elim (λ (r : Option Server × ServerList). r.0 ≡ get_elem? l.servers (wrapped_idx l))
      (length l.servers == 0) _ _ (λ e. sym (get-beyond (wrapped_idx l) l.servers (ground arith)))
      (λ e. refl)

abbrev pub last_idx : ServerList → ℕ
last_idx l = if l.idx == 0 then 0 else l.idx - 1

pub get_current_server-get :
    (l : ServerList) → get_current_server l ≡ get_elem? l.servers (last_idx l)
unfolding get_current_server
get_current_server-get l =
    if_elim (λ o. place_server l.servers o ≡ get_elem? l.servers (last_idx l))
      (leb (length l.servers) (last_idx l)) none (some (last_idx l))
      (λ e. sym (get-beyond (last_idx l) l.servers (ground arith))) (λ e. refl)

module _ (l : ServerList) (i : ℕ) (small : i < length l.servers) where
  wrapped_idx-without : i ≢ wrapped_idx l → wrapped_idx (without l i) ≡ shifted i (wrapped_idx l)
  unfolding wrapped_idx
  wrapped_idx-without h = ground (arith, length-erase_at i l.servers small)

  last_idx-without : i ≢ last_idx l → last_idx (without l i) ≡ shifted i (last_idx l)
  last_idx-without h = ground arith

  other-last_idx : current_place l ≢ some i → i ≢ last_idx l
  unfolding current_place
  other-last_idx h e = ground arith

module _ (l : ServerList) (target : Server) (i : ℕ) (bound : l.idx < size_mod)
    (found : first_target target 0 l.servers ≡ some i) where
  small : i < length l.servers
  small = let b = first_target-bound target 0 l.servers i found in omega arith

  -- Where the index is below 2^64 and `DelServer` removes a server that is not the next one, the next
  -- server stays the same: the rotation skips none, also when the current server is the one that goes.
  pub del_server-get_next_server :
      (advance : Bool)
      → i ≢ wrapped_idx l
      → (get_next_server (del_server l target).list advance).0 ≡ (get_next_server l advance).0
  del_server-get_next_server advance h =
      ap (λ c. (get_next_server c advance).0) (del_server-without l target i bound found)
      ∙ get_next_server-get (without l i) advance
      ∙ ap (get_elem? (erase_at i l.servers)) (wrapped_idx-without l i small h)
      ∙ get-shifted i (wrapped_idx l) l.servers h
      ∙ sym (get_next_server-get l advance)

  -- Where the index is below 2^64 and `DelServer` removes a server that is not the current one, the
  -- current server stays the same.
  pub del_server-get_current_server :
      current_place l ≢ some i
      → get_current_server (del_server l target).list ≡ get_current_server l
  del_server-get_current_server h =
      let other = other-last_idx l i small h in
      ap get_current_server (del_server-without l target i bound found)
      ∙ get_current_server-get (without l i)
      ∙ ap (get_elem? (erase_at i l.servers)) (last_idx-without l i small other)
      ∙ get-shifted i (last_idx l) l.servers other
      ∙ sym (get_current_server-get l)
