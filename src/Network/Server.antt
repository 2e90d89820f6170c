-- ===== src/Network/Server.antt =====
-- `CServer` of src/Server.cpp: where a server is, and how to log in there.
use znc_playground.Prelude.{
  ℕ, Bool, true, false, ◌&&◌, ◌||◌, not, ◌==◌, ◌≡◌, refl, ◌↔◌, if◌then◌else◌, ltb, arith, Bytes,
  bytes_eq, bytes_eq_iff,
}
mod Ordered
pub mod Line
mod Tests
use znc_playground.StringMap.{lt_bytes}

pub record Server : Type 0 where
  pub name : Bytes
  pub port : ℕ
  pub pass : Bytes
  pub ssl : Bool
  pub unix_socket : Bool

-- The constructor: port 0 stands for 6667.
unfoldable pub new_server : Bytes → ℕ → Bytes → Bool → Bool → Server
new_server name port pass ssl unix_socket = record {
  name = name;
  port = if port == 0 then 6667 else port;
  pass = pass;
  ssl = ssl;
  unix_socket = unix_socket;
}

abbrev pub same_bool : Bool → Bool → Bool
same_bool true b = b
same_bool false b = not b

-- `operator==`
unfoldable pub server_eq : Server → Server → Bool
unfolding bytes_eq
server_eq s o =
    bytes_eq s.name o.name
    && s.port == o.port
    && bytes_eq s.pass o.pass
    && same_bool s.ssl o.ssl
    && same_bool s.unix_socket o.unix_socket

-- `operator<` of `bool`
abbrev pub lt_bool : Bool → Bool → Bool
lt_bool false true = true
lt_bool _ _ = false

-- `operator<`: each field in turn, and the next one only where they are equal
unfoldable pub server_lt : Server → Server → Bool
unfolding lt_bytes
server_lt s o =
    if lt_bytes s.name o.name
    then true
    else if lt_bytes o.name s.name
    then false
    else if ltb s.port o.port
    then true
    else if ltb o.port s.port
    then false
    else if lt_bytes s.pass o.pass
    then true
    else if lt_bytes o.pass s.pass
    then false
    else if lt_bool s.ssl o.ssl
    then true
    else if lt_bool o.ssl s.ssl
    then false
    else if lt_bool s.unix_socket o.unix_socket
    then true
    else if lt_bool o.unix_socket s.unix_socket
    then false
    else false
