-- ===== src/Channel/Modes.antt =====
-- `ModeChange`, one mode character at a time, with the calls of module hooks as events. The nick who
-- made the change is only passed on to the hooks and is left out, and so is `OnRawMode2`.
use znc_playground.Channel.Defs.{
  ModeArgs, list_arg, has_arg, arg_when_set, no_arg, ModeTable, is_perm_mode, get_perm_from_mode,
  get_mode_type, Chan, has_mode, get_mode_arg, add_mode, rem_mode, set_key,
}
use znc_playground.Nick.{Nick, nick_equals, has_perm, add_perm, rem_perm}
use znc_playground.Prelude.{
  ℕ, Bool, true, false, not, ◌&&◌, List, [], ◌∷◌, ◌++◌, Option, none, some, ◌==◌, if◌then◌else◌,
  Bytes, codes, bytes_eq,
}
use znc_playground.StringMap.{find, insert}

-- `OnChanPermission3`, `OnOp2`, `OnDeop2`, `OnVoice2`, `OnDevoice2` and `OnMode2`
pub data Event : Type 0 where
  on_chan_permission : Nick → ℕ → Bool → Bool → Event
  on_op on_deop on_voice on_devoice : Nick → Bool → Event
  on_mode : ℕ → Bytes → Bool → Bool → Event

-- The channel, `argIter`, `bAdd` and the events so far
pub record ModeState : Type 0 where
  pub chan : Chan
  pub args : List Bytes
  pub adding : Bool
  pub events : List Event

-- `nextArg`
unfoldable pub next_arg : List Bytes → Bytes × List Bytes
next_arg [] = ([], [])
next_arg (arg ∷ args) = (arg, args)

abbrev pub same_truth : Bool → Bool → Bool
same_truth true b = b
same_truth false b = not b

unfoldable pub toggle_perm : Bool → Nick → ℕ → Nick
unfolding add_perm rem_perm
toggle_perm add n c = if add then (add_perm n c).0 else (rem_perm n c).0

-- The events behind a change of a permission
unfoldable pub perm_events : Nick → ℕ → Bool → Bool → List Event
perm_events n mode add no_change =
    let more =
      if mode == b'o'
      then (if add then on_op n no_change else on_deop n no_change) ∷ []
      else if mode == b'v'
      then (if add then on_voice n no_change else on_devoice n no_change) ∷ []
      else [] in
    on_chan_permission n mode add no_change ∷ more

-- The branch of a permission mode whose argument is the name `arg`, for the nick that `FindNick` finds
unfoldable pub change_perm : ModeTable → Bytes → ModeState → ℕ → Bytes → Option Nick → ModeState
unfolding get_perm_from_mode toggle_perm nick_equals has_perm perm_events insert
change_perm t cur s mode arg none = s
change_perm t cur s mode arg (some n) =
    let c = get_perm_from_mode t mode in
    let no_change = same_truth (has_perm n c) s.adding in
    let changed = toggle_perm s.adding n c in
    if c == 0 then s else record s {
      chan = record s.chan {
        nicks = insert arg changed s.chan.nicks;
        own = if nick_equals changed cur then toggle_perm s.adding s.chan.own c else s.chan.own;
      };
      events = s.events ++ perm_events changed mode s.adding no_change;
    }

unfoldable pub perm_mode : ModeTable → Bytes → ModeState → ℕ → ModeState
unfolding next_arg change_perm find
perm_mode t cur s mode =
    let taken = next_arg s.args in
    change_perm t cur (record s { args = taken.1 }) mode taken.0 (find taken.0 s.chan.nicks)

abbrev pub takes_arg : ModeArgs → Bool → Bool
takes_arg list_arg add = true
takes_arg has_arg add = true
takes_arg arg_when_set add = add
takes_arg no_arg add = false

abbrev pub is_list : ModeArgs → Bool
is_list list_arg = true
is_list _ = false

-- The branch of the other modes, with the argument that `nextArg` gave
unfoldable pub change_mode : ModeState → ℕ → Bool → Bytes → ModeState
unfolding has_mode get_mode_arg add_mode rem_mode set_key bytes_eq
change_mode s mode list arg =
    let no_change =
      if list
      then false
      else if s.adding
      then has_mode s.chan mode && bytes_eq (get_mode_arg s.chan mode) arg
      else not (has_mode s.chan mode) in
    let changed =
      if list
      then s.chan
      else if s.adding
      then add_mode s.chan mode arg
      else (rem_mode s.chan mode).0 in
    record s {
      chan =
          if mode == b'k' && not no_change && s.adding && not (bytes_eq arg (codes "*"))
          then set_key changed arg
          else changed;
      events = s.events ++ on_mode mode arg s.adding no_change ∷ [];
    }

unfoldable pub other_mode : ModeTable → ModeState → ℕ → ModeState
unfolding get_mode_type next_arg change_mode
other_mode t s mode =
    let kind = get_mode_type t mode in
    let taken = if takes_arg kind s.adding then next_arg s.args else ([], s.args) in
    change_mode (record s { args = taken.1 }) mode (is_list kind) taken.0

-- One round of the loop
unfoldable pub mode_step : ModeTable → Bytes → ModeState → ℕ → ModeState
unfolding is_perm_mode perm_mode other_mode
mode_step t cur s mode =
    if mode == b'+'
    then record s { adding = true }
    else if mode == b'-'
    then record s { adding = false }
    else if is_perm_mode t mode
    then perm_mode t cur s mode
    else other_mode t s mode

unfoldable pub mode_loop : ModeTable → Bytes → ModeState → Bytes → ModeState
unfolding mode_step
mode_loop t cur s [] = s
mode_loop t cur s (mode ∷ modes) = mode_loop t cur (mode_step t cur s mode) modes

-- `ModeChange` with its arguments split; `cur` is the nick of the network.
unfoldable pub mode_change : ModeTable → Bytes → Chan → Bytes → List Bytes → ModeState
unfolding mode_loop
mode_change t cur ch modes args =
    mode_loop t cur (record { chan = ch; args = args; adding = true; events = [] }) modes

-- `SetModes`
unfoldable pub set_modes : ModeTable → Bytes → Chan → Bytes → List Bytes → ModeState
unfolding mode_change
set_modes t cur ch modes args = mode_change t cur (record ch { modes = [] }) modes args
