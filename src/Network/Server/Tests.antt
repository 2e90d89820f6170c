-- ===== src/Network/Server/Tests.antt =====
-- Runs and instances of the theorems about the order and the lines of servers.
use znc_playground.Network.Server.{Server, new_server, server_eq, server_lt}
use znc_playground.Network.Server.Line.{get_string, parse_server}
use znc_playground.Network.Server.Line.RoundTrip.{IsWritable, IsPlain, parse_server-get_string}
use znc_playground.Network.Server.Ordered.{server_eq-server_lt}
use znc_playground.Prelude.{arith, ◌≡◌, refl, true, false, [], ◌&&◌, ◌||◌, not, codes}
use znc_playground.Text.Compare.{starts_with}
use znc_playground.Text.Number.{of_number}
use znc_playground.Text.Trim.{contains_char}

abbrev tcp_server : Server
tcp_server = new_server (codes "a") 0 [] false false

abbrev tls_server : Server
tls_server = new_server (codes "a") 6667 [] true false

server_lt_run : server_lt tcp_server tls_server ≡ true
unfolding server_lt new_server
server_lt_run = refl

server_eq-server_lt_example :
    (server_eq tcp_server tls_server
      ≡ not (server_lt tcp_server tls_server || server_lt tls_server tcp_server))
    × ((server_lt tcp_server tls_server && server_lt tls_server tcp_server) ≡ false)
server_eq-server_lt_example = server_eq-server_lt tcp_server tls_server

abbrev with_pass : Server
with_pass = new_server (codes "irc.example.net") 6697 (codes "pass word") true false

get_string_run : get_string true with_pass ≡ codes "irc.example.net +6697 pass word"
unfolding get_string new_server of_number
get_string_run = refl

parse_server_run :
    parse_server (codes " UNIX:ssl:/tmp/sock  secret ")
    ≡ new_server (codes "/tmp/sock") 6667 (codes "secret") true true
unfolding parse_server new_server
parse_server_run = refl

with_pass-IsWritable : IsWritable with_pass
unfolding new_server contains_char
with_pass-IsWritable = ground arith

with_pass-IsPlain : IsPlain with_pass.unix_socket with_pass.ssl with_pass
unfolding new_server get_string starts_with of_number
with_pass-IsPlain = refl

parse_server-get_string_example : parse_server (get_string true with_pass) ≡ with_pass
parse_server-get_string_example =
    parse_server-get_string with_pass with_pass-IsWritable with_pass-IsPlain
