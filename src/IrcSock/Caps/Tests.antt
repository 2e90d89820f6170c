-- ===== src/IrcSock/Caps/Tests.antt =====
-- Runs of the negotiation, and an instance of the theorem about it.
use znc_playground.IrcSock.Caps.Defs.{
  CapState, CapRules, on_capability_message, send_next_cap, pause_cap, resume_cap,
}
use mathlib.Core.Path.{subst}
use znc_playground.IrcSock.Caps.Known.{IsCapName}
use znc_playground.IrcSock.Caps.Dialog.{dialog}
use znc_playground.IrcSock.Caps.Negotiation.{Agreed, is_unasked, dialog-accepted}
use znc_playground.IrcSock.Caps.Requests.{entries}
use znc_playground.Message.{Message, MessageType}
use znc_playground.Nick.{empty_nick}
use znc_playground.Prelude.{
  ◌≡◌, refl, Bool, true, false, not, Bool-cases, inl, inr, List, [], ◌∷◌, some, Bytes, bytes_eq,
  bytes_eq_iff, codes, arith,
}
use znc_playground.StringMap.{find}

abbrev nothing_wanted : CapRules
nothing_wanted = record { is_blacklisted = λ c. false; on_available = λ c v. false }

abbrev connected : CapState
connected = record {
  authed = false;
  namesx = false;
  uh_names = false;
  server_time = false;
  message_tag_cap = false;
  cap_paused = 0;
  accepted = [];
  pending = [];
  pending_phase2 = [];
  ls_values = [];
  put = [];
  results = [];
}

abbrev cap_message : List Bytes → Message
cap_message params = record {
  nick = empty_nick;
  command = codes "CAP";
  params = params;
  tags = [];
  colon = true;
  kind = MessageType.capability;
}

abbrev listed : CapState → CapState
listed =
    on_capability_message nothing_wanted
      (cap_message (codes "*" ∷ codes "LS" ∷ codes "sasl=PLAIN server-time chghost " ∷ []))

ls_run : (listed connected).put ≡ codes "CAP REQ :chghost server-time" ∷ []
unfolding on_capability_message
ls_run = refl

paused_run : (listed (pause_cap connected)).put ≡ []
unfolding on_capability_message pause_cap
paused_run = refl

resume_cap_run : (resume_cap (pause_cap connected)).put ≡ codes "CAP END" ∷ []
unfolding resume_cap pause_cap
resume_cap_run = refl

ack_run :
    (on_capability_message nothing_wanted
      (cap_message (codes "*" ∷ codes "ACK" ∷ codes "server-time" ∷ []))
      connected).server_time
    ≡ true
unfolding on_capability_message
ack_run = refl

-- The name of a single refused capability is the text as it came, with its spaces.
nak_run :
    (on_capability_message nothing_wanted
      (cap_message (codes "*" ∷ codes "NAK" ∷ codes "sasl " ∷ []))
      connected).results
    ≡ (codes "sasl ", false) ∷ []
unfolding on_capability_message
nak_run = refl

abbrev asking : CapState
asking = record connected {
  pending = entries (codes "a" ∷ codes "c" ∷ []);
  pending_phase2 = entries (codes "b" ∷ []);
}

abbrev not_b : Bytes → Bool
not_b c = not (bytes_eq c (codes "b"))

a_name : IsCapName (codes "a")
a_name = ground arith

b_name : IsCapName (codes "b")
b_name = ground arith

c_name : IsCapName (codes "c")
c_name = ground arith

named : (d c : Bytes) → IsCapName d → bytes_eq d c ≡ true → IsCapName c
named d c h e = subst IsCapName ((bytes_eq_iff d c).0 e) h

asking_names : (c : Bytes) → is_unasked asking c ≡ true → IsCapName c
unfolding find
asking_names c h = elim (Bool-cases (bytes_eq (codes "a") c)) [
  | inl e ↦ named (codes "a") c a_name e
  | inr e ↦ elim (Bool-cases (bytes_eq (codes "b") c)) [
    | inl f ↦ named (codes "b") c b_name f
    | inr f ↦ elim (Bool-cases (bytes_eq (codes "c") c)) [
      | inl g ↦ named (codes "c") c c_name g
      | inr g ↦ absurd (ground arith)
    ]
  ]
]

dialog-accepted_example :
    (t : CapState) × (dialog nothing_wanted not_b 5 (send_next_cap asking) ≡ some t)
    × Agreed (is_unasked asking) not_b asking.accepted t
dialog-accepted_example = dialog-accepted nothing_wanted not_b asking refl refl asking_names
