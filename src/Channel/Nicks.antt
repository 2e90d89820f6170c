-- ===== src/Channel/Nicks.antt =====
-- The nicks of a channel: what `ChangeNick` does to them, and the permissions of the user's own nick,
-- which the channel also keeps on the side.
use znc_playground.Channel.Defs.{
  ModeTable, Chan, change_nick, get_mode_type, get_perm_from_mode, is_perm_mode,
}
use znc_playground.Channel.Modes.{
  ModeState, toggle_perm, change_perm, change_mode, other_mode, mode_step, mode_loop, mode_change,
  next_arg, takes_arg, is_list,
}
use znc_playground.Nick.{Nick, empty_nick, nick_equals}
use znc_playground.Prelude.{
  ℕ, ◌≡◌, ◌⊎◌, inl, inr, refl, ap, sym, ◌∙◌, Bool, false, List, [], ◌∷◌, Option, none, some, arith,
  ◌==◌, if◌then◌else◌, if_elim, Bytes, bytes_eq, bytes_eq_iff, Bool-cases,
}
use znc_playground.StringMap.{find, insert, find-insert, find-erase}

-- Where `ChangeNick` finds the old name, nothing stands under that name afterwards, the nick stands
-- under the new name, if that is another one, and every other name keeps its nick.
pub find-change_nick :
    (ch : Chan) (old new name : Bytes) (n : Nick)
    → find old ch.nicks ≡ some n
    → find name (change_nick ch old new).0.nicks ≡ (
        if bytes_eq old name
        then none
        else if bytes_eq new name
        then some (record n { nick = new })
        else find name ch.nicks)
unfolding change_nick
find-change_nick ch old new name n h = rw h (
    find-erase old name (insert new (record n { nick = new }) ch.nicks)
    ∙ ap (λ o. if bytes_eq old name then none else o)
        (find-insert new name (record n { nick = new }) ch.nicks))

-- What the channel knows of a nick that stands under `name`: it is not ours, or it stands under our
-- name `me` and has the permissions that the channel keeps for us.
abbrev pub AgreesAt : Bytes → Bytes → Bytes → Bytes → Option Nick → Type 0
AgreesAt cur me own name none = Unit
AgreesAt cur me own name (some n) = (nick_equals n cur ≡ false) ⊎ ((name ≡ me) × (n.perms ≡ own))

toggle_perm-alone :
    (add : Bool) (n : Nick) (c : ℕ)
    → (toggle_perm add n c).perms
      ≡ (toggle_perm add (record empty_nick { perms = n.perms }) c).perms
unfolding toggle_perm
toggle_perm-alone add n c = ground arith

toggle_perm-perms :
    (add : Bool) (n o : Nick) (c : ℕ)
    → n.perms ≡ o.perms
    → (toggle_perm add n c).perms ≡ (toggle_perm add o c).perms
unfolding toggle_perm
toggle_perm-perms add n o c h =
    toggle_perm-alone add n c
    ∙ ap (λ s. (toggle_perm add (record empty_nick { perms = s }) c).perms) h
    ∙ sym (toggle_perm-alone add o c)

toggle_perm-nick : (add : Bool) (n : Nick) (c : ℕ) → (toggle_perm add n c).nick ≡ n.nick
unfolding toggle_perm
toggle_perm-nick add n c = ground arith

toggle_perm-equals :
    (add : Bool) (n : Nick) (c : ℕ) (cur : Bytes)
    → nick_equals (toggle_perm add n c) cur ≡ nick_equals n cur
unfolding nick_equals
toggle_perm-equals add n c cur =
    ap (λ s. nick_equals (record n { nick = s }) cur) (toggle_perm-nick add n c)

-- The network's nick is `cur`, and the user's own nick stands under `me`.
module _ (t : ModeTable) (cur me : Bytes) where
  abbrev Agrees : ModeState → Bytes → Type 0
  Agrees s name = AgreesAt cur me s.chan.own.perms name (find name s.chan.nicks)

  -- Another nick than the one that is changed
  AgreesAt-other :
      (own own' name arg : Bytes) (o : Option Nick)
      → arg ≡ me
      → bytes_eq arg name ≡ false
      → AgreesAt cur me own name o
      → AgreesAt cur me own' name o
  AgreesAt-other own own' name arg none p ne k = tt
  AgreesAt-other own own' name arg (some m) p ne (inl f) = inl f
  AgreesAt-other own own' name arg (some m) p ne (inr (q, e)) =
      absurd (ground (arith, (bytes_eq_iff arg name).1 (p ∙ sym q)))

  AgreesAt-toggle :
      (add : Bool) (own n : Nick) (c : ℕ) (name arg : Bytes) (o : Option Nick)
      → AgreesAt cur me own.perms arg (some n)
      → AgreesAt cur me own.perms name o
      → AgreesAt cur me
          (if nick_equals (toggle_perm add n c) cur then toggle_perm add own c else own).perms
          name
          (if bytes_eq arg name then some (toggle_perm add n c) else o)
  AgreesAt-toggle add own n c name arg o h k =
      rw (toggle_perm-equals add n c cur) (elim (Bool-cases (bytes_eq arg name)) [
        | inl same ↦ rw same (elim (Bool-cases (nick_equals n cur)) [
          | inl mine ↦ elim h [
            | inl f ↦ absurd (ground arith)
            | inr (p, q) ↦
                rw mine
                  (inr (sym ((bytes_eq_iff arg name).0 same) ∙ p, toggle_perm-perms add n own c q))
          ]
          | inr f ↦ inl (toggle_perm-equals add n c cur ∙ f)
        ])
        | inr ne ↦ rw ne (elim (Bool-cases (nick_equals n cur)) [
          | inl mine ↦ elim h [
            | inl f ↦ absurd (ground arith)
            | inr (p, q) ↦ AgreesAt-other own.perms _ name arg o p ne k
          ]
          | inr f ↦ rw f k
        ])
      ])

  change_perm-Agrees :
      (s : ModeState) (mode : ℕ) (arg : Bytes) (o : Option Nick)
      → find arg s.chan.nicks ≡ o
      → ((name : Bytes) → Agrees s name)
      → (name : Bytes) → Agrees (change_perm t cur s mode arg o) name
  unfolding change_perm
  change_perm-Agrees s mode arg none e h name = h name
  change_perm-Agrees s mode arg (some n) e h name =
      if_elim (λ r. Agrees r name) (get_perm_from_mode t mode == 0) _ _ (λ z. h name)
        (λ z.
          let c = get_perm_from_mode t mode in
          let found = h arg in
          rw (find-insert arg name (toggle_perm s.adding n c) s.chan.nicks) (
            AgreesAt-toggle s.adding s.chan.own n c name arg (find name s.chan.nicks)
              (rw e at found) (h name)))

  change_mode-nicks :
      (s : ModeState) (mode : ℕ) (list : Bool) (arg : Bytes)
      → (change_mode s mode list arg).chan.nicks ≡ s.chan.nicks
  unfolding change_mode
  change_mode-nicks s mode list arg = ground arith

  change_mode-own :
      (s : ModeState) (mode : ℕ) (list : Bool) (arg : Bytes)
      → (change_mode s mode list arg).chan.own ≡ s.chan.own
  unfolding change_mode
  change_mode-own s mode list arg = ground arith

  change_mode-Agrees :
      (s : ModeState) (mode : ℕ) (list : Bool) (arg name : Bytes)
      → Agrees s name
      → Agrees (change_mode s mode list arg) name
  change_mode-Agrees s mode list arg name h =
      rw (change_mode-nicks s mode list arg, change_mode-own s mode list arg) h

  other_mode-Agrees :
      (s : ModeState) (mode : ℕ) (name : Bytes) → Agrees s name → Agrees (other_mode t s mode) name
  unfolding other_mode
  other_mode-Agrees s mode name h =
      let kind = get_mode_type t mode in
      let taken = if takes_arg kind s.adding then next_arg s.args else ([], s.args) in
      change_mode-Agrees (record s { args = taken.1 }) mode (is_list kind) taken.0 name h

  mode_step-Agrees :
      (s : ModeState) (mode : ℕ)
      → ((name : Bytes) → Agrees s name)
      → (name : Bytes) → Agrees (mode_step t cur s mode) name
  unfolding mode_step
  mode_step-Agrees s mode h name =
      if_elim (λ r. Agrees r name) (mode == b'+') _ _ (λ e. h name)
        (λ e.
          if_elim (λ r. Agrees r name) (mode == b'-') _ _ (λ f. h name)
            (λ f.
              if_elim (λ r. Agrees r name) (is_perm_mode t mode) _ _
                (λ g.
                  change_perm-Agrees (record s { args = (next_arg s.args).1 }) mode
                    (next_arg s.args).0 _ refl h name)
                (λ g. other_mode-Agrees s mode name (h name))))

  mode_loop-Agrees :
      (s : ModeState) (modes : Bytes)
      → ((name : Bytes) → Agrees s name)
      → (name : Bytes) → Agrees (mode_loop t cur s modes) name
  unfolding mode_loop
  mode_loop-Agrees s [] h name = h name
  mode_loop-Agrees s (mode ∷ modes) h name =
      mode_loop-Agrees (mode_step t cur s mode) modes (mode_step-Agrees s mode h) name

  -- If in every entry of the channel that is the user's own nick the name is `me` and the permissions
  -- are those that the channel keeps for the user, it is so after any `ModeChange`.
  pub mode_change-AgreesAt :
      (ch : Chan) (modes : Bytes) (args : List Bytes) (name : Bytes)
      → ((other : Bytes) → AgreesAt cur me ch.own.perms other (find other ch.nicks))
      → AgreesAt cur me
          (mode_change t cur ch modes args).chan.own.perms
          name
          (find name (mode_change t cur ch modes args).chan.nicks)
  unfolding mode_change
  mode_change-AgreesAt ch modes args name h = mode_loop-Agrees _ modes h name
