-- ===== src/IrcSock/Support/Reach.antt =====
-- What holds after any replies.
use znc_playground.Channel.{ModeTable}
use znc_playground.IrcSock.Support.Defs.{
  Support, is_nil, set_prefix, set_value, named, param_name, param_value, begins_colon,
  support_loop, behind_first, parse_isupport, first_support,
}
use znc_playground.Message.{Message}
use znc_playground.Prelude.{
  ◌≤◌, ◌≡◌, refl, List, [], ◌∷◌, ◌==◌, if_elim, length, Bytes, codes, arith,
}
use znc_playground.StringMap.{insert}
use znc_playground.Text.Number.{to_uint}

-- The states that replies lead to from that of a new connection
pub data Reached : Support → Type 0 where
  start : (prefixes : Bytes) → Reached (first_support prefixes)
  reply : {s : Support} → Reached s → (m : Message) → Reached (parse_isupport m s)

-- Each permission mode has its prefix, and a nick may have a character at least.
pub record IsSound (s : Support) : Type 0 where
  pub paired : length s.table.perms ≡ length s.table.perm_modes
  pub has_nick : 1 ≤ s.max_nick_len

set_prefix-paired :
    (value : Bytes) (t : ModeTable)
    → length t.perms ≡ length t.perm_modes
    → length (set_prefix value t).perms ≡ length (set_prefix value t).perm_modes
unfolding set_prefix
set_prefix-paired value t h = ground arith

set_value-IsSound :
    (name value : Bytes) (s : Support) → IsSound s → IsSound (set_value name value s)
unfolding set_value
set_value-IsSound name value s h =
    if_elim IsSound (named name (codes "PREFIX")) _ _
      (λ e. record { paired = set_prefix-paired value s.table h.paired; has_nick = h.has_nick })
      (λ e.
        if_elim IsSound (named name (codes "CHANTYPES")) _ _
          (λ e. record { paired = h.paired; has_nick = h.has_nick })
          (λ e.
            if_elim IsSound (named name (codes "NICKLEN")) _ _
              (λ e.
                if_elim IsSound (to_uint value == 0) _ _ (λ z. h)
                  (λ z. record { paired = h.paired; has_nick = ground arith }))
              (λ e.
                if_elim IsSound (named name (codes "CHANMODES")) _ _
                  (λ e.
                    if_elim IsSound (is_nil value) _ _ (λ z. h)
                      (λ z. record { paired = h.paired; has_nick = h.has_nick }))
                  (λ e.
                    if_elim IsSound (named name (codes "NAMESX")) _ _
                      (λ e.
                        if_elim IsSound s.namesx _ _ (λ z. h)
                          (λ z. record { paired = h.paired; has_nick = h.has_nick }))
                      (λ e.
                        if_elim IsSound (named name (codes "UHNAMES")) _ _
                          (λ e.
                            if_elim IsSound s.uh_names _ _ (λ z. h)
                              (λ z. record { paired = h.paired; has_nick = h.has_nick }))
                          (λ e. h))))))

support_loop-IsSound : (ps : List Bytes) (s : Support) → IsSound s → IsSound (support_loop ps s)
unfolding support_loop
support_loop-IsSound [] s h = h
support_loop-IsSound (p ∷ []) s h = h
support_loop-IsSound (p ∷ q ∷ ps) s h =
    let t : Support = record s { values = insert (param_name p) (param_value p) s.values } in
    let kept : IsSound t = record { paired = h.paired; has_nick = h.has_nick } in
    if_elim IsSound (begins_colon (param_name p)) _ _ (λ e. h)
      (λ e.
        support_loop-IsSound (q ∷ ps) (set_value (param_name p) (param_value p) t)
          (set_value-IsSound (param_name p) (param_value p) t kept))

-- After any replies to a new connection there are as many permission modes as prefixes, so that
-- GetPermFromMode and GetModeFromPerm read the table, and the length of a nick is not 0.
pub Reached-IsSound : {s : Support} → Reached s → IsSound s
unfolding parse_isupport
Reached-IsSound (start prefixes) = record { paired = refl; has_nick = omega arith }
Reached-IsSound (reply {s} before m) =
    support_loop-IsSound (behind_first m.params) s (Reached-IsSound before)
