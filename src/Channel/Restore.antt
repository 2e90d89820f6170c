-- ===== src/Channel/Restore.antt =====
-- The modes that a channel shows are the modes that it has when it reads them.
use znc_playground.Channel.Defs.{
  ModeTable, is_perm_mode, get_mode_type, Chan, mode_key, letter_of, mode_letters, mode_args,
  has_mode, get_mode_arg, add_mode, set_key,
}
use znc_playground.Channel.Modes.{
  ModeState, takes_arg, is_list, next_arg, change_mode, other_mode, mode_step, mode_loop, set_modes,
}
use znc_playground.Prelude.{
  codes, ℕ, ◌≡◌, ◌≢◌, refl, ap, ap₂, sym, ◌∙◌, Bool, true, false, not, ◌&&◌, List, [], ◌∷◌, ◌++◌,
  append_assoc, append-nil, All, arith, ◌==◌, if◌then◌else◌, if_elim, Bytes, bytes_eq,
}
use znc_playground.StringMap.{StringMap, IsSorted, insert, insert-last}

abbrev is_empty : Bytes → Bool
is_empty [] = true
is_empty (c ∷ s) = false

-- A mode that `ModeChange` can set: its key is that of its letter, which stands for no sign, no
-- permission and no list, and it has an argument exactly if its kind takes one.
abbrev pub IsSettable : ModeTable → Bytes × Bytes → Type 0
IsSettable t (k, arg) =
    (mode_key (letter_of k) ≡ k)
    × (letter_of k ≢ b'+')
    × (letter_of k ≢ b'-')
    × (is_perm_mode t (letter_of k) ≡ false)
    × (is_list (get_mode_type t (letter_of k)) ≡ false)
    × (takes_arg (get_mode_type t (letter_of k)) true ≡ not (is_empty arg))

set_key-modes : (ch : Chan) (s : Bytes) → (set_key ch s).modes ≡ ch.modes
unfolding set_key
set_key-modes ch s =
    if_elim (λ (c : Chan). c.modes ≡ ch.modes) (bytes_eq ch.key s) _ _ (λ e. refl) (λ e. refl)

change_mode-modes :
    (s : ModeState) (mode : ℕ) (arg : Bytes)
    → s.adding ≡ true
    → (change_mode s mode false arg).chan.modes ≡ insert (mode_key mode) arg s.chan.modes
unfolding change_mode add_mode
change_mode-modes s mode arg h = rw h (
    if_elim (λ (c : Chan). c.modes ≡ insert (mode_key mode) arg s.chan.modes)
      (mode == b'k'
        && not (has_mode s.chan mode && bytes_eq (get_mode_arg s.chan mode) arg)
        && true
        && not (bytes_eq arg (codes "*")))
      _ _ (λ e. set_key-modes (add_mode s.chan mode arg) arg) (λ e. refl))

change_mode-adding :
    (s : ModeState) (mode : ℕ) (list : Bool) (arg : Bytes)
    → (change_mode s mode list arg).adding ≡ s.adding
unfolding change_mode
change_mode-adding s mode list arg = refl

change_mode-args :
    (s : ModeState) (mode : ℕ) (list : Bool) (arg : Bytes)
    → (change_mode s mode list arg).args ≡ s.args
unfolding change_mode
change_mode-args s mode list arg = refl

-- The argument that a mode takes from the front
abbrev taken : Bool → List Bytes → Bytes × List Bytes
taken takes args = if takes then next_arg args else ([], args)

module _ (t : ModeTable) (cur : Bytes) where
  other_mode-change_mode :
      (s : ModeState) (k arg : Bytes)
      → IsSettable t (k, arg)
      → s.adding ≡ true
      → other_mode t s (letter_of k)
        ≡ change_mode
            (record s { args = (taken (not (is_empty arg)) s.args).1 })
            (letter_of k)
            false
            (taken (not (is_empty arg)) s.args).0
  unfolding other_mode
  other_mode-change_mode s k arg (_, plus, minus, perm, list, takes) h =
      ap₂ (λ l (r : Bytes × List Bytes). change_mode (record s { args = r.1 }) (letter_of k) l r.0)
        list (ap (λ b. taken b s.args) (ap (takes_arg (get_mode_type t (letter_of k))) h ∙ takes))

  mode_step-other_mode :
      (s : ModeState) (k arg : Bytes)
      → IsSettable t (k, arg)
      → mode_step t cur s (letter_of k) ≡ other_mode t s (letter_of k)
  unfolding mode_step
  mode_step-other_mode s k arg (_, plus, minus, perm, list, takes) =
      if_elim (λ r. r ≡ other_mode t s (letter_of k)) (letter_of k == b'+') _ _
        (λ e. absurd (plus (ground arith)))
        (λ e.
          if_elim (λ r. r ≡ other_mode t s (letter_of k)) (letter_of k == b'-') _ _
            (λ f. absurd (minus (ground arith)))
            (λ f.
              if_elim (λ r. r ≡ other_mode t s (letter_of k)) (is_perm_mode t (letter_of k)) _ _
                (λ g. absurd (ground arith)) (λ g. refl)))

  -- One mode of the string
  mode_step-settable :
      (s : ModeState) (k arg : Bytes) (rest : List Bytes)
      → IsSettable t (k, arg)
      → s.adding ≡ true
      → taken (not (is_empty arg)) s.args ≡ (arg, rest)
      → ((mode_step t cur s (letter_of k)).chan.modes ≡ insert k arg s.chan.modes)
        × ((mode_step t cur s (letter_of k)).args ≡ rest)
        × ((mode_step t cur s (letter_of k)).adding ≡ true)
  mode_step-settable s k arg rest ok h e =
      let after =
        mode_step-other_mode s k arg ok
        ∙ other_mode-change_mode s k arg ok h
        ∙ ap
            (λ (r : Bytes × List Bytes).
              change_mode (record s { args = r.1 }) (letter_of k) false r.0)
            e in
      (
        ap (λ (r : ModeState). r.chan.modes) after
            ∙ change_mode-modes (record s { args = rest }) (letter_of k) arg h
            ∙ ap (λ j. insert j arg s.chan.modes) ok.0,
        ap (λ (r : ModeState). r.args) after
            ∙ change_mode-args (record s { args = rest }) (letter_of k) false arg,
        ap (λ (r : ModeState). r.adding) after
            ∙ change_mode-adding (record s { args = rest }) (letter_of k) false arg
            ∙ h,
      )

  mode_step-front :
      (s : ModeState) (k arg : Bytes) (m : StringMap Bytes)
      → s.args ≡ mode_args ((k, arg) ∷ m)
      → taken (not (is_empty arg)) s.args ≡ (arg, mode_args m)
  unfolding next_arg
  mode_step-front s k [] m e = ap (λ args. ([], args)) e
  mode_step-front s k (c ∷ arg) m e = ap next_arg e

  mode_loop-settable :
      (s : ModeState) (done left : StringMap Bytes)
      → All (IsSettable t) left
      → IsSorted (done ++ left)
      → s.adding ≡ true
      → s.args ≡ mode_args left
      → s.chan.modes ≡ done
      → (mode_loop t cur s (mode_letters left)).chan.modes ≡ done ++ left
  unfolding mode_loop
  mode_loop-settable s done [] ok sorted adding args e = e ∙ sym (append-nil done)
  mode_loop-settable s done ((k, arg) ∷ left) ok sorted adding args e =
      let after =
        mode_step-settable s k arg (mode_args left) ok.0 adding
          (mode_step-front s k arg left args) in
      mode_loop-settable (mode_step t cur s (letter_of k)) (done ++ (k, arg) ∷ []) left ok.1
        (rw (append_assoc done ((k, arg) ∷ []) left) sorted) after.2 after.1
        (after.0 ∙ ap (insert k arg) e ∙ insert-last k arg done left sorted)
      ∙ append_assoc done ((k, arg) ∷ []) left

  -- A channel whose modes `ModeChange` can set, in the order of their keys, gets the same modes from
  -- `SetModes` on the letters and the arguments that `GetModeString` shows.
  pub set_modes-mode_letters :
      (ch : Chan)
      → All (IsSettable t) ch.modes
      → IsSorted ch.modes
      → (set_modes t cur ch (b'+' ∷ mode_letters ch.modes) (mode_args ch.modes)).chan.modes
        ≡ ch.modes
  unfolding set_modes
  set_modes-mode_letters ch ok sorted = mode_loop-settable _ [] ch.modes ok sorted refl refl refl
