-- ===== src/IrcSock/Caps/Dialog.antt =====
-- The dialog with a server that answers each request: it grants a request exactly if it would grant
-- each capability of it, and repeats the names.
use znc_playground.IrcSock.Caps.Defs.{CapState, CapRules, on_capability_message}
use znc_playground.Message.{Message, MessageType}
use znc_playground.Nick.{empty_nick}
use znc_playground.Prelude.{
  ℕ, zero, suc, Bool, true, ◌&&◌, List, [], ◌∷◌, Option, none, some, if◌then◌else◌, drop, take,
  Bytes, bytes_eq, codes,
}
use znc_playground.Text.SplitBy.{words}

unfoldable pub grants_all : (Bytes → Bool) → List Bytes → Bool
grants_all grants [] = true
grants_all grants (c ∷ cs) = grants c && grants_all grants cs

-- `CAP * ACK :…` or `CAP * NAK :…`
unfoldable pub answer : (Bytes → Bool) → Bytes → Message
unfolding grants_all words
answer grants caps = record {
  nick = empty_nick;
  command = codes "CAP";
  params =
      codes "*" ∷ (if grants_all grants (words caps) then codes "ACK" else codes "NAK") ∷ caps ∷ [];
  tags = [];
  colon = true;
  kind = MessageType.capability;
}

-- The names that a line asks for
abbrev pub asked : List Bytes → Option Bytes
asked [] = none
asked (line ∷ lines) =
    if bytes_eq (take 9 line) (codes "CAP REQ :") then some (drop 9 line) else none

-- If the newest line is a request, the dialog goes on with the answer to it.
abbrev pub go_on : Option Bytes → CapState → (Bytes → Option CapState) → Option CapState
go_on none s next = some s
go_on (some caps) s next = next caps

-- The server answers as long as the newest line is a request; `none` if the fuel runs out.
unfoldable pub dialog : CapRules → (Bytes → Bool) → ℕ → CapState → Option CapState
unfolding answer on_capability_message bytes_eq
dialog r grants zero s = go_on (asked s.put) s (λ caps. none)
dialog r grants (suc fuel) s =
    go_on (asked s.put) s
      (λ caps. dialog r grants fuel (on_capability_message r (answer grants caps) s))
