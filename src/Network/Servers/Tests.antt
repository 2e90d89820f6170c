-- ===== src/Network/Servers/Tests.antt =====
-- Runs and instances of the theorems about the server list.
use znc_playground.Network.Server.{Server, new_server}
use znc_playground.Network.Servers.Defs.{
  ServerList, current_place, get_current_server, wrapped_idx, get_next_server, del_server,
  add_server, set_next_server, clone_servers, is_last_server,
}
use znc_playground.Network.Servers.Removal.{first_target}
use znc_playground.Network.Servers.Rotation.{
  del_server-get_next_server, del_server-get_current_server,
}
use znc_playground.Network.Servers.Advance.{
  advance_times, advance_times-reaches, get_next_server-set_next_server,
}
use znc_playground.Network.Servers.Reach.{Reached, Step, IsWell, Reached-IsWell}
use znc_playground.Prelude.{
  ℕ, ◌≡◌, ◌≢◌, refl, true, false, [], ◌∷◌, some, Bytes, codes, length, ◌<◌, get_elem?, arith,
}
use znc_playground.Text.Compare.{equals}

abbrev plain : Bytes → Server
plain name = new_server name 0 [] false false

abbrev server_a : Server
server_a = plain (codes "a")

abbrev server_b : Server
server_b = plain (codes "b")

abbrev server_c : Server
server_c = plain (codes "c")

abbrev at : ℕ → ServerList
at i = record { servers = server_a ∷ server_b ∷ server_c ∷ []; idx = i }

-- The current server is removed, and the one after it has its turn.
del_server_run :
    (del_server (at 2) (plain (codes "B"))).list
    ≡ record { servers = server_a ∷ server_c ∷ []; idx = 1 }
unfolding del_server equals new_server
del_server_run = refl

add_server_run : (add_server false (at 1) (plain (codes "b"))).1 ≡ false
unfolding add_server new_server
add_server_run = refl

clone_servers_run :
    clone_servers true (at 3) (server_c ∷ server_a ∷ server_c ∷ [])
    ≡ record { servers = server_c ∷ server_a ∷ []; idx = 1 }
unfolding clone_servers new_server
clone_servers_run = refl

is_last_server_run : is_last_server (at 3) ≡ true
unfolding is_last_server
is_last_server_run = refl

found_b : first_target (plain (codes "B")) 0 (at 2).servers ≡ some 1
unfolding first_target new_server
found_b = refl

not_next : 1 ≢ wrapped_idx (at 2)
unfolding wrapped_idx
not_next = omega arith

del_server-get_next_server_example :
    (get_next_server (del_server (at 2) (plain (codes "B"))).list true).0
    ≡ (get_next_server (at 2) true).0
del_server-get_next_server_example =
    del_server-get_next_server (at 2) (plain (codes "B")) 1 (omega arith) found_b true not_next

not_current : current_place (at 1) ≢ some 1
unfolding current_place
not_current h = ground arith

del_server-get_current_server_example :
    get_current_server (del_server (at 1) (plain (codes "B"))).list ≡ get_current_server (at 1)
del_server-get_current_server_example =
    del_server-get_current_server (at 1) (plain (codes "B")) 1 (omega arith) found_b not_current

advance_times-reaches_example :
    (k : ℕ) × (k < length (at 2).servers)
    × ((get_next_server (advance_times k (at 2)) true).0 ≡ get_elem? (at 2).servers 1)
advance_times-reaches_example = advance_times-reaches (at 2) 1 (omega arith)

chosen_c : (set_next_server (at 1) 2).1 ≡ true
unfolding set_next_server
chosen_c = refl

abbrev empty_list : ServerList
empty_list = record { servers = []; idx = 0 }

abbrev one_server : ServerList
one_server = (add_server true empty_list server_a).0

Reached-IsWell_example : IsWell true (get_next_server one_server true).1.servers
Reached-IsWell_example = Reached-IsWell true (
    Reached.step (Reached.step Reached.start (Step.added empty_list server_a))
      (Step.advanced one_server true))

get_next_server-set_next_server_example :
    (get_next_server (set_next_server (at 1) 2).0 true).0 ≡ get_elem? (at 1).servers 2
get_next_server-set_next_server_example = get_next_server-set_next_server (at 1) 2 true chosen_c
