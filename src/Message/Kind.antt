-- ===== src/Message/Kind.antt =====
-- `CMessage::InitType` and the setters that call it.
use znc_playground.Message.Defs.{
  Message, MessageType, unknown, account, action, authenticate, away, capability, chg_host, ctcp,
  error, invite, join, kick, mode, nick_change, notice, numeric, part, ping, pong, quit, tag_msg,
  text, topic, wallops, get_param,
}
use znc_playground.Prelude.{
  ℕ, ◌+◌, ◌-◌, Bool, true, false, ◌&&◌, List, [], ◌∷◌, ◌++◌, leb, ◌==◌, if◌then◌else◌, Bytes,
  String, codes, bytes_eq, length, get_or, set, replicate,
}
use znc_playground.Text.Compare.{equals, insensitive, starts_with, ends_with, trim_prefix, as_upper}
use znc_playground.Text.Ctype.{is_digit, to_upper}

-- `mTypes`
abbrev type_table : List (String × MessageType)
type_table =
    ("ACCOUNT", account)
    ∷ ("AUTHENTICATE", authenticate)
    ∷ ("AWAY", away)
    ∷ ("CAP", capability)
    ∷ ("CHGHOST", chg_host)
    ∷ ("ERROR", error)
    ∷ ("INVITE", invite)
    ∷ ("JOIN", join)
    ∷ ("KICK", kick)
    ∷ ("MODE", mode)
    ∷ ("NICK", nick_change)
    ∷ ("PART", part)
    ∷ ("PING", ping)
    ∷ ("PONG", pong)
    ∷ ("QUIT", quit)
    ∷ ("TAGMSG", tag_msg)
    ∷ ("TOPIC", topic)
    ∷ ("WALLOPS", wallops)
    ∷ []

find_type : Bytes → List (String × MessageType) → MessageType
unfolding bytes_eq
find_type command [] = unknown
find_type command ((name, t) ∷ table) =
    if bytes_eq (codes name) command then t else find_type command table

is_numeric : Bytes → Bool
unfolding is_digit
is_numeric command =
    length command == 3
    && is_digit (get_or command 0 0)
    && is_digit (get_or command 1 0)
    && is_digit (get_or command 2 0)

abbrev soh : Bytes
soh = 1 ∷ []

-- The branch of `PRIVMSG`, on the parameter without its first \001 and whether there was one
privmsg_type : Bytes × Bool → MessageType
unfolding starts_with ends_with
privmsg_type (s, trimmed) =
    if trimmed && ends_with insensitive s soh
    then (if starts_with insensitive s (codes "ACTION ") then action else ctcp)
    else text

notice_type : Bytes → MessageType
unfolding starts_with ends_with
notice_type s =
    if starts_with insensitive s soh && ends_with insensitive s soh then ctcp else notice

unfoldable pub init_type : Message → Message
unfolding find_type is_numeric privmsg_type notice_type get_param equals trim_prefix to_upper
init_type m = record m {
  kind =
      if is_numeric m.command
      then numeric
      else if equals insensitive m.command (codes "PRIVMSG")
      then privmsg_type (trim_prefix soh (get_param m 1))
      else if equals insensitive m.command (codes "NOTICE")
      then notice_type (get_param m 1)
      else find_type (as_upper m.command) type_table;
}

-- `m_eType == Type::Text || ... Notice || ... Action || ... CTCP`
unfoldable pub has_text : MessageType → Bool
has_text text = true
has_text notice = true
has_text action = true
has_text ctcp = true
has_text _ = false

unfoldable pub set_command : Message → Bytes → Message
unfolding init_type
set_command m command = init_type (record m { command = command })

unfoldable pub set_params : Message → List Bytes → Message
unfolding has_text init_type
set_params m params =
    let m' = record m { params = params; colon = false } in
    if has_text m.kind then init_type m' else m'

-- `resize(uIdx + 1)`
unfoldable pub resized : List Bytes → ℕ → List Bytes
resized params i =
    if leb (length params) i then params ++ replicate (i + 1 - length params) [] else params

unfoldable pub set_param : Message → ℕ → Bytes → Message
unfolding has_text init_type resized
set_param m i s =
    let m' = record m { params = set (resized m.params i) i s } in
    if i == 1 && has_text m.kind then init_type m' else m'
