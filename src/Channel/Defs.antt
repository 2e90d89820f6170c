-- ===== src/Channel/Defs.antt =====
-- The modes and nicks that a channel keeps, and the mode characters of its server, which `CIRCSock` of
-- src/IRCSock.cpp keeps. A `char` is its unsigned value.
use znc_playground.Nick.{Nick}
use znc_playground.Prelude.{
  ℕ, ◌+◌, ◌%◌, Bool, true, false, not, ◌&&◌, List, [], ◌∷◌, ◌++◌, Option, none, some, ◌==◌,
  if◌then◌else◌, Bytes, bytes_eq, length,
}
use znc_playground.StringMap.{StringMap, find, insert, erase}
use znc_playground.Text.Trim.{contains_char}

-- `EChanModeArgs`
pub data ModeArgs : Type 0 where
  list_arg has_arg arg_when_set no_arg : ModeArgs

-- `m_sPerms`, `m_sPermModes` and `m_mceChanModes`
pub record ModeTable : Type 0 where
  pub perms : Bytes
  pub perm_modes : Bytes
  pub chan_modes : List (ℕ × ModeArgs)

unfoldable pub is_perm_mode : ModeTable → ℕ → Bool
unfolding contains_char
is_perm_mode t c = not (c == 0) && contains_char t.perm_modes c

unfoldable pub perm_at : ℕ → Bytes → Bytes → ℕ
perm_at c (m ∷ modes) (p ∷ perms) = if m == c then p else perm_at c modes perms
perm_at c _ _ = 0

unfoldable pub get_perm_from_mode : ModeTable → ℕ → ℕ
unfolding perm_at
get_perm_from_mode t c =
    if length t.perm_modes == length t.perms then perm_at c t.perm_modes t.perms else 0

unfoldable pub type_in : ℕ → List (ℕ × ModeArgs) → ModeArgs
type_in c [] = no_arg
type_in c ((d, a) ∷ modes) = if d == c then a else type_in c modes

unfoldable pub get_mode_type : ModeTable → ℕ → ModeArgs
unfolding type_in
get_mode_type t c = type_in c t.chan_modes

-- The part of `CChan` that modes and nicks need. A mode is a key of one byte, shifted so that the keys
-- have the order of a signed `char`. `delayed_write` is the state that `SetKey` sets for the
-- configuration.
pub record Chan : Type 0 where
  pub key : Bytes
  pub in_config : Bool
  pub delayed_write : Bool
  pub own : Nick
  pub nicks : StringMap Nick
  pub modes : StringMap Bytes

abbrev pub mode_key : ℕ → Bytes
mode_key c = (c + 128) % 256 ∷ []

abbrev pub letter_of : Bytes → ℕ
letter_of [] = 0
letter_of (b ∷ k) = (b + 128) % 256

abbrev is_some {ℓ} : {A : Type ℓ} → Option A → Bool
is_some none = false
is_some (some a) = true

abbrev arg_or_empty : Option Bytes → Bytes
arg_or_empty none = []
arg_or_empty (some a) = a

unfoldable pub has_mode : Chan → ℕ → Bool
unfolding find
has_mode ch c = not (c == 0) && is_some (find (mode_key c) ch.modes)

unfoldable pub get_mode_arg : Chan → ℕ → Bytes
unfolding find
get_mode_arg ch c = if not (c == 0) then arg_or_empty (find (mode_key c) ch.modes) else []

unfoldable pub add_mode : Chan → ℕ → Bytes → Chan
unfolding insert
add_mode ch c arg = record ch { modes = insert (mode_key c) arg ch.modes }

unfoldable pub rem_mode : Chan → ℕ → Chan × Bool
unfolding has_mode erase
rem_mode ch c =
    if not (has_mode ch c)
    then (ch, false)
    else (record ch { modes = erase (mode_key c) ch.modes }, true)

unfoldable pub set_key : Chan → Bytes → Chan
unfolding bytes_eq
set_key ch s =
    if bytes_eq ch.key s
    then ch
    else record ch { key = s; delayed_write = if ch.in_config then true else ch.delayed_write }

-- `sModes` and the arguments that `sArgs` holds, in `GetModeString`
abbrev pub mode_letters : StringMap Bytes → Bytes
mode_letters [] = []
mode_letters ((k, arg) ∷ m) = letter_of k ∷ mode_letters m

abbrev pub mode_args : StringMap Bytes → List Bytes
mode_args [] = []
mode_args ((k, []) ∷ m) = mode_args m
mode_args ((k, c ∷ arg) ∷ m) = (c ∷ arg) ∷ mode_args m

abbrev pub spaced : List Bytes → Bytes
spaced [] = []
spaced (arg ∷ args) = b' ' ∷ arg ++ spaced args

unfoldable pub get_mode_string : Chan → Bytes
get_mode_string ch =
    if length ch.modes == 0 then [] else b'+' ∷ mode_letters ch.modes ++ spaced (mode_args ch.modes)

-- `RemNick`, and whether the nick was there
unfoldable pub rem_nick : Chan → Bytes → Chan × Bool
unfolding find erase
rem_nick ch name =
    if is_some (find name ch.nicks)
    then (record ch { nicks = erase name ch.nicks }, true)
    else (ch, false)

-- `ChangeNick` on the nick that it finds: a new entry is written, then the old one is erased.
unfoldable pub rename : StringMap Nick → Bytes → Bytes → Option Nick → StringMap Nick × Bool
unfolding insert erase
rename nicks old new none = (nicks, false)
rename nicks old new (some n) = (erase old (insert new (record n { nick = new }) nicks), true)

unfoldable pub change_nick : Chan → Bytes → Bytes → Chan × Bool
unfolding rename find
change_nick ch old new =
    let r = rename ch.nicks old new (find old ch.nicks) in (record ch { nicks = r.0 }, r.1)
