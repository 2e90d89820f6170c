-- ===== src/Network/Servers/Defs.antt =====
-- `m_vServers` and `m_uServerIdx`, the index of the current server plus one. A pointer to a server is
-- its place in the vector: the entries are separate objects, so two places hold different pointers.
use znc_playground.Network.Server.{Server, server_eq}
use znc_playground.Prelude.{
  ℕ, zero, suc, ◌+◌, ◌-◌, ◌%◌, ◌^◌, Bool, true, false, not, ◌&&◌, ◌||◌, List, [], ◌∷◌, ◌++◌, Option,
  none, some, leb, ltb, ◌==◌, if◌then◌else◌, Bytes, bytes_eq, length, get_elem?,
}
use znc_playground.Text.Compare.{equals, insensitive}

pub record ServerList : Type 0 where
  pub servers : List Server
  pub idx : ℕ

-- `GetCurrentServer`, as a place in the vector
unfoldable pub current_place : ServerList → Option ℕ
current_place l =
    let i = if l.idx == 0 then 0 else l.idx - 1 in if leb (length l.servers) i then none else some i

abbrev pub place_server : List Server → Option ℕ → Option Server
place_server servers none = none
place_server servers (some i) = get_elem? servers i

unfoldable pub get_current_server : ServerList → Option Server
unfolding current_place
get_current_server l = place_server l.servers (current_place l)

-- The index that `GetNextServer` begins with
unfoldable pub wrapped_idx : ServerList → ℕ
wrapped_idx l = if leb (length l.servers) l.idx then 0 else l.idx

unfoldable pub get_next_server : ServerList → Bool → Option Server × ServerList
unfolding wrapped_idx
get_next_server l advance =
    let i = wrapped_idx l in
    if length l.servers == 0
    then (none, l)
    else (get_elem? l.servers i, record l { idx = if advance then i + 1 else i })

-- `s.empty()`
abbrev pub is_empty : Bytes → Bool
is_empty [] = true
is_empty (c ∷ s) = false

-- The tests of the loop of `DelServer`: is `s` a server that `target` asks to remove?
unfoldable pub is_target : Server → Server → Bool
unfolding equals bytes_eq
is_target s target =
    equals insensitive s.name target.name
    && not (not s.unix_socket && target.unix_socket)
    && not (not (target.port == 6667) && not (s.port == target.port))
    && not (not (is_empty target.pass) && not (bytes_eq s.pass target.pass))

-- `pServer == pCurServer`
abbrev pub is_place : ℕ → Option ℕ → Bool
is_place a none = false
is_place a (some c) = a == c

-- The loop of `DelServer` from place `a` on: the place of the server to remove, and `bSawCurrentServer`
unfoldable pub find_target : Server → Option ℕ → ℕ → Bool → List Server → Option (ℕ × Bool)
unfolding is_target
find_target target cur a saw [] = none
find_target target cur a saw (s ∷ servers) =
    let saw' = saw || is_place a cur in
    let later = find_target target cur (a + 1) saw' servers in
    if is_target s target then some (a, saw') else later

-- `m_vServers.erase(it)`
unfoldable pub erase_at : ℕ → List Server → List Server
erase_at i [] = []
erase_at zero (s ∷ servers) = servers
erase_at (suc i) (s ∷ servers) = s ∷ erase_at i servers

-- `m_uServerIdx--` on a `size_t`
abbrev pub size_mod : ℕ
size_mod = 2 ^ 64

abbrev pub decrement : ℕ → ℕ
decrement i = (i + size_mod - 1) % size_mod

-- What `DelServer` returns, and whether it jumps, which is to close the connection if there is one
pub record Removed : Type 0 where
  pub list : ServerList
  pub found : Bool
  pub jump : Bool

unfoldable pub remove_place : ServerList → Option (ℕ × Bool) → Removed
unfolding erase_at current_place
remove_place l none = record { list = l; found = false; jump = false }
remove_place l (some (i, saw)) =
    let rest = erase_at i l.servers in
    if is_place i (current_place l)
    then record {
      list = record { servers = rest; idx = if l.idx == 0 then 0 else l.idx - 1 };
      found = true;
      jump = true;
    }
    else record {
      list = record { servers = rest; idx = if saw then l.idx else decrement l.idx };
      found = true;
      jump = false;
    }

unfoldable pub del_server : ServerList → Server → Removed
unfolding find_target remove_place
del_server l target = remove_place l (find_target target (current_place l) 0 false l.servers)

-- `*pServer == Server` for some server of the list
unfoldable pub has_server : Server → List Server → Bool
unfolding server_eq
has_server new [] = false
has_server new (s ∷ servers) = server_eq s new || has_server new servers

-- `AddServer(CServer)`; `has_ssl` says whether the program was built with TLS. `CheckIRCConnect`, which
-- may queue the network for a connection, is not modelled.
unfoldable pub add_server : Bool → ServerList → Server → ServerList × Bool
unfolding has_server
add_server has_ssl l new =
    if is_empty new.name
    then (l, false)
    else if not has_ssl && new.ssl
    then (l, false)
    else if has_server new l.servers
    then (l, false)
    else (record l { servers = l.servers ++ new ∷ [] }, true)

-- `SetNextServer`, by the place of the server
unfoldable pub set_next_server : ServerList → ℕ → ServerList × Bool
set_next_server l i = if ltb i (length l.servers) then (record l { idx = i }, true) else (l, false)

unfoldable pub is_last_server : ServerList → Bool
is_last_server l = leb (length l.servers) l.idx

-- `DelServers`
unfoldable pub del_servers : ServerList → ServerList
del_servers l = record l { servers = [] }

-- The first place from `a` on with a server of that name
unfoldable pub name_place : Bytes → ℕ → List Server → Option ℕ
unfolding equals
name_place name a [] = none
name_place name a (s ∷ servers) =
    let later = name_place name (a + 1) servers in
    if equals insensitive name s.name then some a else later

abbrev pub add_servers : Bool → ServerList → List Server → ServerList
add_servers has_ssl l [] = l
add_servers has_ssl l (new ∷ servers) = add_servers has_ssl (add_server has_ssl l new).0 servers

abbrev name_of : Option Server → Bytes
name_of none = []
name_of (some s) = s.name

-- `m_uServerIdx = a + 1`, or the last server where the name is not found
abbrev pub current_at : Option ℕ → List Server → ServerList
current_at (some a) servers = record { servers = servers; idx = a + 1 }
current_at none servers = record { servers = servers; idx = length servers }

-- The part of `Clone` on the server list: the servers of the other network, and the current server of
-- this one kept by its name.
unfoldable pub clone_servers : Bool → ServerList → List Server → ServerList
unfolding get_current_server del_servers add_server name_place
clone_servers has_ssl l others =
    let added = add_servers has_ssl (del_servers l) others in
    current_at (name_place (name_of (get_current_server l)) 0 added.servers) added.servers
