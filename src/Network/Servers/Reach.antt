-- ===== src/Network/Servers/Reach.antt =====
-- The calls that change the server list, as steps, and what holds of the list after any of them.
use znc_playground.Network.Server.{Server, server_eq}
use znc_playground.Network.Servers.Defs.{
  ServerList, Removed, get_next_server, find_target, erase_at, remove_place, del_server, is_empty,
  has_server, add_server, set_next_server, del_servers, add_servers, current_at, clone_servers,
  is_place, current_place,
}
use znc_playground.Prelude.{
  ℕ, zero, suc, ◌≡◌, Bool, true, false, ◌||◌, ◌&&◌, not, List, [], ◌∷◌, ◌++◌, All, Option, none,
  some, arith, ◌==◌, ltb, length, if_elim, All-append,
}

-- A call that changes the list; `has_ssl` says whether the program was built with TLS.
pub data Step (has_ssl : Bool) : ServerList → ServerList → Type 0 where
  added : (l : ServerList) (new : Server) → Step has_ssl l (add_server has_ssl l new).0
  removed : (l : ServerList) (target : Server) → Step has_ssl l (del_server l target).list
  cleared : (l : ServerList) → Step has_ssl l (del_servers l)
  advanced : (l : ServerList) (advance : Bool) → Step has_ssl l (get_next_server l advance).1
  chosen : (l : ServerList) (i : ℕ) → Step has_ssl l (set_next_server l i).0
  cloned : (l : ServerList) (others : List Server) → Step has_ssl l (clone_servers has_ssl l others)

-- The lists that calls lead to from the empty one
pub data Reached (has_ssl : Bool) : ServerList → Type 0 where
  start : Reached has_ssl (record { servers = []; idx = 0 })
  step : {l k : ServerList} → Reached has_ssl l → Step has_ssl l k → Reached has_ssl k

-- A server that `AddServer` takes
abbrev pub IsUsable : Bool → Server → Type 0
IsUsable has_ssl s = (is_empty s.name ≡ false) × ((has_ssl || not s.ssl) ≡ true)

-- No server equals one behind it.
abbrev pub AreDistinct : List Server → Type 0
AreDistinct [] = Unit
AreDistinct (s ∷ servers) = All (λ t. server_eq s t ≡ false) servers × AreDistinct servers

abbrev pub IsWell : Bool → List Server → Type 0
IsWell has_ssl servers = All (IsUsable has_ssl) servers × AreDistinct servers

All-erase_at :
    (P : Server → Type 0) (i : ℕ) (servers : List Server)
    → All P servers
    → All P (erase_at i servers)
unfolding erase_at
All-erase_at P i [] h = h
All-erase_at P zero (s ∷ servers) h = h.1
All-erase_at P (suc i) (s ∷ servers) h = (h.0, All-erase_at P i servers h.1)

AreDistinct-erase_at :
    (i : ℕ) (servers : List Server) → AreDistinct servers → AreDistinct (erase_at i servers)
unfolding erase_at
AreDistinct-erase_at i [] h = h
AreDistinct-erase_at zero (s ∷ servers) h = h.1
AreDistinct-erase_at (suc i) (s ∷ servers) h =
    (All-erase_at _ i servers h.0, AreDistinct-erase_at i servers h.1)

AreDistinct-append :
    (servers : List Server) (new : Server)
    → AreDistinct servers
    → has_server new servers ≡ false
    → AreDistinct (servers ++ new ∷ [])
unfolding has_server
AreDistinct-append [] new h e = (tt, tt)
AreDistinct-append (s ∷ servers) new h e =
    (All-append _ servers new h.0 (ground arith), AreDistinct-append servers new h.1 (ground arith))

module _ (has_ssl : Bool) where
  add_server-IsWell :
      (l : ServerList) (new : Server)
      → IsWell has_ssl l.servers
      → IsWell has_ssl (add_server has_ssl l new).0.servers
  unfolding add_server
  add_server-IsWell l new h =
      if_elim P (is_empty new.name) _ _ (λ e. h)
        (λ named.
          if_elim P (not has_ssl && new.ssl) _ _ (λ e. h)
            (λ usable.
              if_elim P (has_server new l.servers) _ _ (λ e. h)
                (λ fresh. (
                  All-append (IsUsable has_ssl) l.servers new h.0 (named, ground arith),
                  AreDistinct-append l.servers new h.1 fresh,
                ))))
    where
      P : ServerList × Bool → Type 0
      P r = IsWell has_ssl r.0.servers

  add_servers-IsWell :
      (l : ServerList) (others : List Server)
      → IsWell has_ssl l.servers
      → IsWell has_ssl (add_servers has_ssl l others).servers
  add_servers-IsWell l [] h = h
  add_servers-IsWell l (new ∷ others) h =
      add_servers-IsWell (add_server has_ssl l new).0 others (add_server-IsWell l new h)

  remove_place-IsWell :
      (l : ServerList) (o : Option (ℕ × Bool))
      → IsWell has_ssl l.servers
      → IsWell has_ssl (remove_place l o).list.servers
  unfolding remove_place
  remove_place-IsWell l none h = h
  remove_place-IsWell l (some (i, saw)) h =
      if_elim (λ (r : Removed). IsWell has_ssl r.list.servers) (is_place i (current_place l)) _ _
        (λ e.
          (All-erase_at (IsUsable has_ssl) i l.servers h.0, AreDistinct-erase_at i l.servers h.1))
        (λ e.
          (All-erase_at (IsUsable has_ssl) i l.servers h.0, AreDistinct-erase_at i l.servers h.1))

  no_servers : (l : ServerList) → IsWell has_ssl (del_servers l).servers
  unfolding del_servers
  no_servers l = (tt, tt)

  current_at-IsWell :
      (o : Option ℕ) (servers : List Server)
      → IsWell has_ssl servers
      → IsWell has_ssl (current_at o servers).servers
  current_at-IsWell none servers h = h
  current_at-IsWell (some i) servers h = h

  clone_servers-IsWell :
      (l : ServerList) (others : List Server)
      → IsWell has_ssl (clone_servers has_ssl l others).servers
  unfolding clone_servers
  clone_servers-IsWell l others =
      current_at-IsWell _ _ (add_servers-IsWell (del_servers l) others (no_servers l))

  Step-IsWell :
      {l k : ServerList} → Step has_ssl l k → IsWell has_ssl l.servers → IsWell has_ssl k.servers
  unfolding del_server set_next_server get_next_server
  Step-IsWell (Step.added l new) h = add_server-IsWell l new h
  Step-IsWell (Step.removed l target) h =
      remove_place-IsWell l (find_target target (current_place l) 0 false l.servers) h
  Step-IsWell (Step.cleared l) h = no_servers l
  Step-IsWell (Step.advanced l advance) h =
      if_elim (λ (r : Option Server × ServerList). IsWell has_ssl r.1.servers)
        (length l.servers == 0) _ _ (λ e. h) (λ e. h)
  Step-IsWell (Step.chosen l i) h =
      if_elim (λ (r : ServerList × Bool). IsWell has_ssl r.0.servers) (ltb i (length l.servers)) _ _
        (λ e. h) (λ e. h)
  Step-IsWell (Step.cloned l others) h = clone_servers-IsWell l others

  -- In every list that calls lead to from the empty one, each server has a name, none uses TLS if the
  -- program was built without it, and no server equals one behind it.
  pub Reached-IsWell : {l : ServerList} → Reached has_ssl l → IsWell has_ssl l.servers
  Reached-IsWell Reached.start = (tt, tt)
  Reached-IsWell (Reached.step before s) = Step-IsWell s (Reached-IsWell before)
