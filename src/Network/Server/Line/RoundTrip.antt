-- ===== src/Network/Server/Line/RoundTrip.antt =====
-- `Parse` on what `GetString` writes.
use znc_playground.Network.Server.{Server, new_server}
use znc_playground.Network.Server.Line.Defs.{
  get_string, parse_server, parse_unix, parse_tcp, parse_trimmed, spaced_pass, word, words_from,
  line_spaces,
}
use znc_playground.Prelude.{
  ℕ, ◌<◌, ◌^◌, ◌≡◌, ◌≢◌, refl, ap, ap₂, sym, ◌∙◌, Bool, true, false, [], ◌∷◌, ◌++◌, append_assoc,
  append-nil, if◌then◌else◌, Bytes, codes, arith,
}
use znc_playground.Text.Compare.Prefix.{trim_prefix-append, trim_prefix-absent}
use znc_playground.Text.Compare.{starts_with, left, insensitive, trim_prefix}
use znc_playground.Text.Number.{of_number, to_ushort}
use znc_playground.Text.Number.RoundTrip.{
  AreDigits, of_number-AreDigits, of_number-ne, to_ushort-of_number,
}
use znc_playground.Text.Split.{Lacks}
use znc_playground.Text.Token.{Starts, token-first, token-only, token-rest, token-next, token-last}
use znc_playground.Text.Trim.Clean.{FirstOutside, LastOutside, trim-clean, LastOutside-append}
use znc_playground.Text.Trim.{contains_char}

-- A name of one word, and a password with no space in front; neither begins or ends with a space.
pub record IsWritable (s : Server) : Type 0 where
  pub name_word : Lacks b' ' s.name
  pub name_some : s.name ≢ []
  pub name_first : FirstOutside line_spaces s.name
  pub name_last : LastOutside line_spaces s.name
  pub pass_start : Starts b' ' s.pass
  pub pass_last : LastOutside line_spaces s.pass
  pub port_small : s.port < 2 ^ 16
  pub port_some : s.port ≢ 0

real_space : ◌≢◌ {A = ℕ} b' ' 0
real_space = omega arith

new_server-port :
    (name : Bytes) (port : ℕ) (pass : Bytes) (ssl unix_socket : Bool)
    → port ≢ 0
    → new_server name port pass ssl unix_socket
      ≡ record { name = name; port = port; pass = pass; ssl = ssl; unix_socket = unix_socket }
unfolding new_server
new_server-port name port pass ssl unix_socket h = ground arith

-- A word and a password behind it
word-pass : (w pass : Bytes) → Lacks b' ' w → w ≢ [] → word 0 (w ++ spaced_pass true pass) ≡ w
word-pass w [] h n = ap (word 0) (append-nil w) ∙ token-only b' ' real_space w h
word-pass w (c ∷ pass) h n = token-first b' ' real_space w (c ∷ pass) h n

rest-pass :
    (w pass : Bytes)
    → Lacks b' ' w
    → w ≢ []
    → Starts b' ' pass
    → words_from 1 (w ++ spaced_pass true pass) ≡ pass
rest-pass w [] h n k = ap (words_from 1) (append-nil w) ∙ token-last b' ' real_space 0 true w h
rest-pass w (c ∷ pass) h n k =
    token-next b' ' real_space 0 true w (c ∷ pass) h n k ∙ token-rest b' ' real_space (c ∷ pass) k

LastOutside-pass :
    (w pass : Bytes)
    → LastOutside line_spaces w
    → LastOutside line_spaces pass
    → LastOutside line_spaces (w ++ spaced_pass true pass)
LastOutside-pass w [] h k = rw (append-nil w) h
LastOutside-pass w (c ∷ pass) h k = LastOutside-append line_spaces w (b' ' ∷ c ∷ pass) (λ e. cc) k

AreDigits-Lacks : (s : Bytes) → AreDigits s → Lacks b' ' s
AreDigits-Lacks [] h = tt
AreDigits-Lacks (c ∷ s) h = (omega arith, AreDigits-Lacks s h.1)

AreDigits-LastOutside : (s : Bytes) → AreDigits s → LastOutside line_spaces s
unfolding contains_char
AreDigits-LastOutside [] h = tt
AreDigits-LastOutside (c ∷ []) h = ground (arith, h.0)
AreDigits-LastOutside (c ∷ d ∷ s) h = AreDigits-LastOutside (d ∷ s) h.1

AreDigits-plus : (s : Bytes) → AreDigits s → starts_with insensitive s (codes "+") ≡ false
unfolding starts_with left
AreDigits-plus [] h = refl
AreDigits-plus (c ∷ s) h = ground (arith, h.0)

-- The port, behind a `+` for TLS
abbrev port_word : Bool → ℕ → Bytes
port_word ssl port = (if ssl then codes "+" else []) ++ of_number port

trim_prefix-port_word :
    (ssl : Bool) (port : ℕ) → trim_prefix (codes "+") (port_word ssl port) ≡ (of_number port, ssl)
trim_prefix-port_word true port = trim_prefix-append (codes "+") (of_number port)
trim_prefix-port_word false port =
    trim_prefix-absent (codes "+") (of_number port)
      (AreDigits-plus (of_number port) (of_number-AreDigits port))

port_word-Lacks : (ssl : Bool) (port : ℕ) → Lacks b' ' (port_word ssl port)
port_word-Lacks true port =
    (omega arith, AreDigits-Lacks (of_number port) (of_number-AreDigits port))
port_word-Lacks false port = AreDigits-Lacks (of_number port) (of_number-AreDigits port)

port_word-ne : (ssl : Bool) (port : ℕ) → port_word ssl port ≢ []
port_word-ne true port = λ e. cc
port_word-ne false port = of_number-ne port

port_word-LastOutside : (ssl : Bool) (port : ℕ) → LastOutside line_spaces (port_word ssl port)
port_word-LastOutside ssl port =
    LastOutside-append line_spaces (if ssl then codes "+" else []) (of_number port)
      (of_number-ne port) (AreDigits-LastOutside (of_number port) (of_number-AreDigits port))

Starts-word : (w rest : Bytes) → Lacks b' ' w → w ≢ [] → Starts b' ' (w ++ rest)
Starts-word [] rest h n = absurd (n refl)
Starts-word (c ∷ w) rest h n = h.0

FirstOutside-append :
    (w rest : Bytes) → w ≢ [] → FirstOutside line_spaces w → FirstOutside line_spaces (w ++ rest)
FirstOutside-append [] rest n h = absurd (n refl)
FirstOutside-append (c ∷ w) rest n h = h

-- The line of a server that is no socket
module _ (name : Bytes) (port : ℕ) (pass : Bytes) (ssl : Bool) where
  abbrev tail : Bytes
  tail = port_word ssl port ++ spaced_pass true pass

  parse_tcp-line :
      Lacks b' ' name
      → name ≢ []
      → Starts b' ' pass
      → port < 2 ^ 16
      → port ≢ 0
      → parse_trimmed (name ++ b' ' ∷ tail, false)
        ≡ record { name = name; port = port; pass = pass; ssl = ssl; unix_socket = false }
  unfolding parse_trimmed new_server
  parse_tcp-line h n k small some_port =
      let plain = port_word-Lacks ssl port in
      let starts =
        Starts-word (port_word ssl port) (spaced_pass true pass) plain (port_word-ne ssl port) in
      let line = name ++ b' ' ∷ tail in
      ap (λ w. parse_tcp line (trim_prefix (codes "+") w))
        (token-next b' ' real_space 0 false name tail h n starts
          ∙ word-pass (port_word ssl port) pass plain (port_word-ne ssl port))
      ∙ ap (parse_tcp line) (trim_prefix-port_word ssl port)
      ∙ ap₂ (λ host rest. new_server host (to_ushort (of_number port)) rest ssl false)
          (token-first b' ' real_space name tail h n)
          (token-next b' ' real_space 1 true name tail h n starts
            ∙ rest-pass (port_word ssl port) pass plain (port_word-ne ssl port) k)
      ∙ ap (λ p. new_server name p pass ssl false) (to_ushort-of_number port small)
      ∙ new_server-port name port pass ssl false some_port

-- The line of a socket
module _ (name pass : Bytes) where
  parse_unix-line :
      (ssl : Bool)
      → Lacks b' ' name
      → name ≢ []
      → Starts b' ' pass
      → parse_unix (name ++ spaced_pass true pass, ssl)
        ≡ record { name = name; port = 6667; pass = pass; ssl = ssl; unix_socket = true }
  unfolding parse_unix new_server
  parse_unix-line ssl h n k =
      ap₂ (λ path rest. new_server path 0 rest ssl true) (word-pass name pass h n)
        (rest-pass name pass h n k)

-- Which lines are read in another way: a TCP server whose line begins with `unix:`, a socket without
-- TLS whose path begins with `ssl:`, and a socket with another port than the usual one.
abbrev pub IsPlain : Bool → Bool → Server → Type 0
IsPlain false ssl s = starts_with insensitive (get_string true s) (codes "unix:") ≡ false
IsPlain true true s = s.port ≡ 6667
IsPlain true false s =
    (s.port ≡ 6667)
    × (starts_with insensitive (s.name ++ spaced_pass true s.pass) (codes "ssl:") ≡ false)

abbrev server : Bytes → ℕ → Bytes → Bool → Bool → Server
server name port pass ssl unix_socket = record {
  name = name;
  port = port;
  pass = pass;
  ssl = ssl;
  unix_socket = unix_socket;
}

-- A line that `Trim` leaves as it is
parse_server-clean :
    (w rest : Bytes)
    → w ≢ []
    → FirstOutside line_spaces w
    → LastOutside line_spaces (w ++ rest)
    → parse_server (w ++ rest) ≡ parse_trimmed (trim_prefix (codes "unix:") (w ++ rest))
unfolding parse_server
parse_server-clean w rest n h k =
    ap (λ t. parse_trimmed (trim_prefix (codes "unix:") t))
      (trim-clean line_spaces (w ++ rest) (FirstOutside-append w rest n h) k)

append_ne : (w rest : Bytes) → w ≢ [] → (w ++ rest) ≢ []
append_ne [] rest n e = n refl
append_ne (c ∷ w) rest n e = cc

outside_u : FirstOutside line_spaces (codes "unix:")
unfolding contains_char
outside_u = refl

tail-LastOutside :
    (name : Bytes) (port : ℕ) (pass : Bytes) (ssl : Bool)
    → LastOutside line_spaces pass
    → LastOutside line_spaces (name ++ b' ' ∷ tail name port pass ssl)
tail-LastOutside name port pass ssl h =
    LastOutside-append line_spaces name (b' ' ∷ tail name port pass ssl) (λ e. cc)
      (LastOutside-append line_spaces (b' ' ∷ []) (tail name port pass ssl)
        (append_ne (port_word ssl port) (spaced_pass true pass) (port_word-ne ssl port))
        (LastOutside-pass (port_word ssl port) pass (port_word-LastOutside ssl port) h))

path-LastOutside :
    (w name pass : Bytes)
    → name ≢ []
    → LastOutside line_spaces name
    → LastOutside line_spaces pass
    → LastOutside line_spaces (w ++ (name ++ spaced_pass true pass))
path-LastOutside w name pass n h k =
    LastOutside-append line_spaces w (name ++ spaced_pass true pass)
      (append_ne name (spaced_pass true pass) n) (LastOutside-pass name pass h k)

-- The line behind `unix:`
parse_server-unix :
    (rest : Bytes)
    → LastOutside line_spaces (codes "unix:" ++ rest)
    → parse_server (codes "unix:" ++ rest) ≡ parse_unix (trim_prefix (codes "ssl:") rest)
unfolding parse_trimmed
parse_server-unix rest h =
    parse_server-clean (codes "unix:") rest (λ e. cc) outside_u h
    ∙ ap parse_trimmed (trim_prefix-append (codes "unix:") rest)

parse_server-parts :
    (name : Bytes) (port : ℕ) (pass : Bytes) (ssl unix_socket : Bool)
    → IsWritable (server name port pass ssl unix_socket)
    → IsPlain unix_socket ssl (server name port pass ssl unix_socket)
    → parse_server (get_string true (server name port pass ssl unix_socket))
      ≡ server name port pass ssl unix_socket
unfolding get_string
parse_server-parts name port pass ssl false ok plain =
    let line = append_assoc name (b' ' ∷ port_word ssl port) (spaced_pass true pass) in
    let plain' = ap (λ t. starts_with insensitive t (codes "unix:")) (sym line) ∙ plain in
    ap parse_server line
    ∙ parse_server-clean name (b' ' ∷ tail name port pass ssl) ok.name_some ok.name_first
        (tail-LastOutside name port pass ssl ok.pass_last)
    ∙ ap parse_trimmed (trim_prefix-absent (codes "unix:") _ plain')
    ∙ parse_tcp-line name port pass ssl ok.name_word ok.name_some ok.pass_start ok.port_small
        ok.port_some
parse_server-parts name port pass true true ok plain =
    let path = name ++ spaced_pass true pass in
    parse_server-unix (codes "ssl:" ++ path)
      (path-LastOutside (codes "unix:ssl:") name pass ok.name_some ok.name_last ok.pass_last)
    ∙ ap parse_unix (trim_prefix-append (codes "ssl:") path)
    ∙ parse_unix-line name pass true ok.name_word ok.name_some ok.pass_start
    ∙ ap (λ p. server name p pass true true) (sym plain)
parse_server-parts name port pass false true ok plain =
    let path = name ++ spaced_pass true pass in
    parse_server-unix path
      (path-LastOutside (codes "unix:") name pass ok.name_some ok.name_last ok.pass_last)
    ∙ ap parse_unix (trim_prefix-absent (codes "ssl:") path plain.1)
    ∙ parse_unix-line name pass false ok.name_word ok.name_some ok.pass_start
    ∙ ap (λ p. server name p pass false true) (sym plain.0)

-- A server with a name of one word, no space in front of the name or the password or behind them, a
-- port from 1 to 65535, and a line that is not read in another way, is written by `GetString` as a
-- line from which `Parse` reads the same server.
pub parse_server-get_string :
    (s : Server)
    → IsWritable s
    → IsPlain s.unix_socket s.ssl s
    → parse_server (get_string true s) ≡ s
parse_server-get_string s ok plain =
    parse_server-parts s.name s.port s.pass s.ssl s.unix_socket ok plain
