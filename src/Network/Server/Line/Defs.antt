-- ===== src/Network/Server/Line/Defs.antt =====
-- Writing a server and reading it.
use znc_playground.Network.Server.{Server, new_server}
use znc_playground.Prelude.{ℕ, Bool, true, false, [], ◌∷◌, ◌++◌, if◌then◌else◌, Bytes, codes}
use znc_playground.Text.Compare.{trim_prefix}
use znc_playground.Text.Number.{of_number, to_ushort}
use znc_playground.Text.Token.{token}
use znc_playground.Text.Trim.{trim}

abbrev pub spaced_pass : Bool → Bytes → Bytes
spaced_pass false pass = []
spaced_pass true [] = []
spaced_pass true (c ∷ pass) = b' ' ∷ c ∷ pass

unfoldable pub get_string : Bool → Server → Bytes
get_string with_pass s =
    (if s.unix_socket
      then codes "unix:" ++ ((if s.ssl then codes "ssl:" else []) ++ s.name)
      else s.name ++ b' ' ∷ ((if s.ssl then codes "+" else []) ++ of_number s.port))
    ++ spaced_pass with_pass s.pass

-- `Token(i)` and `Token(i, true)`
abbrev pub word : ℕ → Bytes → Bytes
word i s = token i false (codes " ") false s

abbrev pub words_from : ℕ → Bytes → Bytes
words_from i s = token i true (codes " ") false s

-- The path and the password behind `unix:`
unfoldable pub parse_unix : Bytes × Bool → Server
unfolding token new_server
parse_unix (s, ssl) = new_server (word 0 s) 0 (words_from 1 s) ssl true

-- The host of the line `s`, with its port in the form of a number or behind a `+`
unfoldable pub parse_tcp : Bytes → Bytes × Bool → Server
unfolding token to_ushort new_server
parse_tcp s (port, ssl) = new_server (word 0 s) (to_ushort port) (words_from 2 s) ssl false

unfoldable pub parse_trimmed : Bytes × Bool → Server
unfolding parse_unix parse_tcp trim_prefix
parse_trimmed (s, true) = parse_unix (trim_prefix (codes "ssl:") s)
parse_trimmed (s, false) = parse_tcp s (trim_prefix (codes "+") (word 1 s))

abbrev pub line_spaces : Bytes
line_spaces = b' ' ∷ 9 ∷ 13 ∷ 10 ∷ []

unfoldable pub parse_server : Bytes → Server
unfolding parse_trimmed trim
parse_server line = parse_trimmed (trim_prefix (codes "unix:") (trim line_spaces line))
