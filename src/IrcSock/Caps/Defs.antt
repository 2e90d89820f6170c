-- ===== src/IrcSock/Caps/Defs.antt =====
-- `SendNextCap`, `PauseCap`, `ResumeCap` and `OnCapabilityMessage`.
use znc_playground.Message.Defs.{Message, get_param}
use znc_playground.Prelude.{
  ℕ, ◌+◌, ◌-◌, ◌%◌, ◌^◌, Bool, true, false, ◌||◌, ◌==◌, List, [], ◌∷◌, ◌++◌, Option, none, some,
  if◌then◌else◌, ltb, length, Bytes, bytes_eq, codes,
}
use znc_playground.StringMap.{StringMap, find, insert, erase}
use znc_playground.Text.Split.{split_at}
use znc_playground.Text.SplitBy.{words}

-- `SCString`
abbrev pub StringSet : Type 0
StringSet = StringMap (Unit {0})

abbrev pub is_there : Option (Unit {0}) → Bool
is_there none = false
is_there (some u) = true

abbrev pub is_in : Bytes → StringSet → Bool
is_in c m = is_there (find c m)

-- The part of `CIRCSock` that negotiates. `put` has the lines that `PutIRC` was given, the newest first,
-- and `results` the calls of `OnServerCapResult`, the newest first.
pub record CapState : Type 0 where
  pub authed : Bool
  pub namesx : Bool
  pub uh_names : Bool
  pub server_time : Bool
  pub message_tag_cap : Bool
  pub cap_paused : ℕ
  pub accepted : StringSet
  pub pending : StringSet
  pub pending_phase2 : StringSet
  pub ls_values : StringMap Bytes
  pub put : List Bytes
  pub results : List (Bytes × Bool)

-- The blacklist of the configuration, and whether a module wants a capability
pub record CapRules : Type 0 where
  pub is_blacklisted : Bytes → Bool
  pub on_available : Bytes → Bytes → Bool

abbrev pub put_line : Bytes → CapState → CapState
put_line line s = record s { put = line ∷ s.put }

-- The loop that joins names, and the names that are left
unfoldable pub fill_caps : Bytes → StringSet → Bytes × StringSet
fill_caps caps [] = (caps, [])
fill_caps caps ((name, u) ∷ rest) =
    let later = fill_caps (caps ++ (b' ' ∷ name)) rest in
    if ltb 98 (length caps + length name) then (caps, (name, u) ∷ rest) else later

abbrev pub request : Bytes → Bytes
request caps = codes "CAP REQ :" ++ caps

abbrev pub end_line : Bytes
end_line = codes "CAP END"

unfoldable pub next_phase2 : CapState → StringSet → CapState
next_phase2 s [] = if s.authed then s else put_line end_line s
next_phase2 s ((cap, u) ∷ rest) = put_line (request cap) (record s { pending_phase2 = rest })

unfoldable pub next_pending : CapState → StringSet → CapState
unfolding next_phase2 fill_caps
next_pending s [] = next_phase2 s s.pending_phase2
next_pending s ((cap, u) ∷ rest) =
    let (caps, left) = fill_caps cap rest in put_line (request caps) (record s { pending = left })

unfoldable pub send_next_cap : CapState → CapState
unfolding next_pending
send_next_cap s = if s.cap_paused == 0 then next_pending s s.pending else s

-- `unsigned int`
unfoldable pub pause_cap : CapState → CapState
pause_cap s = record s { cap_paused = (s.cap_paused + 1) % 2 ^ 32 }

unfoldable pub resume_cap : CapState → CapState
unfolding send_next_cap
resume_cap s = send_next_cap (record s { cap_paused = (s.cap_paused + 2 ^ 32 - 1) % 2 ^ 32 })

abbrev pub is_supported : Bytes → Bool
is_supported c =
    bytes_eq c (codes "multi-prefix")
    || (bytes_eq c (codes "userhost-in-names")
        || (bytes_eq c (codes "cap-notify")
            || (bytes_eq c (codes "invite-notify")
                || (bytes_eq c (codes "server-time")
                    || (bytes_eq c (codes "znc.in/server-time-iso")
                        || (bytes_eq c (codes "chghost") || bytes_eq c (codes "message-tags")))))))

-- What `mSupportedCaps` does for a capability
unfoldable pub set_cap : Bytes → Bool → CapState → CapState
unfolding bytes_eq
set_cap c on s =
    if bytes_eq c (codes "multi-prefix")
    then record s { namesx = on }
    else if bytes_eq c (codes "userhost-in-names")
    then record s { uh_names = on }
    else if bytes_eq c (codes "server-time") || bytes_eq c (codes "znc.in/server-time-iso")
    then record s { server_time = on }
    else if bytes_eq c (codes "message-tags")
    then record s { message_tag_cap = on }
    else s

abbrev pub cap_result : Bytes → Bool → CapState → CapState
cap_result c on s = record s { results = (c, on) ∷ s.results }

-- `RemoveCap`
unfoldable pub remove_cap : Bytes → CapState → CapState
unfolding set_cap erase
remove_cap c s =
    let t = set_cap c false (cap_result c false s) in
    record t { accepted = erase c t.accepted; pending = erase c t.pending }

abbrev pub name_and_value : Bytes → Option (Bytes × Bytes) → Bytes × Bytes
name_and_value token none = (token, [])
name_and_value token (some (name, value)) = (name, value)

unfoldable pub add_available : CapRules → Bytes × Bytes → CapState → CapState
unfolding insert bytes_eq
add_available r (cap, value) s =
    if r.is_blacklisted cap
    then s
    else if r.on_available cap value || is_supported cap
    then record s { ls_values = insert cap value s.ls_values; pending = insert cap tt s.pending }
    else record s { ls_values = insert cap value s.ls_values }

unfoldable pub on_ls : CapRules → List Bytes → CapState → CapState
unfolding add_available split_at
on_ls r [] s = s
on_ls r (token ∷ tokens) s =
    on_ls r tokens (add_available r (name_and_value token (split_at b'=' token)) s)

unfoldable pub on_ack : List Bytes → CapState → CapState
unfolding set_cap insert
on_ack [] s = s
on_ack (cap ∷ caps) s =
    let t = set_cap cap true (cap_result cap true s) in
    on_ack caps (record t { accepted = insert cap tt t.accepted })

unfoldable pub retry_later : List Bytes → CapState → CapState
unfolding insert
retry_later [] s = s
retry_later (cap ∷ caps) s =
    retry_later caps (record s { pending_phase2 = insert cap tt s.pending_phase2 })

-- One name, or several or none
unfoldable pub on_nak : Bytes → List Bytes → CapState → CapState
unfolding remove_cap retry_later
on_nak args (cap ∷ []) s = remove_cap args s
on_nak args caps s = retry_later caps s

unfoldable pub on_del : List Bytes → CapState → CapState
unfolding remove_cap erase
on_del [] s = s
on_del (cap ∷ caps) s =
    let t = remove_cap cap s in on_del caps (record t { ls_values = erase cap t.ls_values })

unfoldable pub on_sub_command : CapRules → Bytes → Bytes → CapState → CapState
unfolding on_ls on_ack on_nak on_del words bytes_eq
on_sub_command r sub args s =
    if bytes_eq sub (codes "LS") || bytes_eq sub (codes "NEW")
    then on_ls r (words args) s
    else if bytes_eq sub (codes "ACK")
    then on_ack (words args) s
    else if bytes_eq sub (codes "NAK")
    then on_nak args (words args) s
    else if bytes_eq sub (codes "DEL")
    then on_del (words args) s
    else s

-- `OnCapabilityMessage`; a list that goes on in another message has a `*` in front.
unfoldable pub on_capability_message : CapRules → Message → CapState → CapState
unfolding on_sub_command send_next_cap get_param bytes_eq
on_capability_message r m s =
    if bytes_eq (get_param m 2) (codes "*")
    then on_sub_command r (get_param m 1) (get_param m 3) s
    else send_next_cap (on_sub_command r (get_param m 1) (get_param m 2) s)
