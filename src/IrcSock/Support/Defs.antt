-- ===== src/IrcSock/Support/Defs.antt =====
-- `ParseISupport`, `GetISupport`, `GetModeFromPerm` and the values that they read and set.
use znc_playground.Channel.{ModeTable, ModeArgs}
use znc_playground.Message.Defs.{Message}
use znc_playground.Prelude.{
  ℕ, zero, suc, Bool, true, false, not, ◌&&◌, List, [], ◌∷◌, Option, none, some, ◌==◌,
  if◌then◌else◌, length, Bytes, codes,
}
use znc_playground.StringMap.{StringMap, find, insert}
use znc_playground.Text.Compare.{equals, insensitive, as_upper}
use znc_playground.Text.Ctype.{to_upper}
use znc_playground.Text.Number.{to_uint}
use znc_playground.Text.Token.{token}
use znc_playground.Text.Trim.{trim_left}

-- The part of `CIRCSock` that the replies set, with the channel prefixes of the network. `put` has the
-- lines that `PutIRC` was given, the newest first.
pub record Support : Type 0 where
  pub values : StringMap Bytes
  pub table : ModeTable
  pub chan_prefixes : Bytes
  pub max_nick_len : ℕ
  pub namesx : Bool
  pub uh_names : Bool
  pub put : List Bytes

-- The place of a mode in the order of the groups
abbrev pub args_of : ℕ → ModeArgs
args_of zero = ModeArgs.list_arg
args_of (suc zero) = ModeArgs.has_arg
args_of (suc (suc zero)) = ModeArgs.arg_when_set
args_of (suc (suc (suc n))) = ModeArgs.no_arg

-- `m_mceChanModes[c] = a`
unfoldable pub set_type : ℕ → ModeArgs → List (ℕ × ModeArgs) → List (ℕ × ModeArgs)
set_type c a [] = (c, a) ∷ []
set_type c a ((d, b) ∷ modes) = if d == c then (c, a) ∷ modes else (d, b) ∷ set_type c a modes

unfoldable pub set_types : Bytes → ModeArgs → List (ℕ × ModeArgs) → List (ℕ × ModeArgs)
unfolding set_type
set_types [] a modes = modes
set_types (c ∷ cs) a modes = set_types cs a (set_type c a modes)

-- The group `a` of the value
unfoldable pub mode_group : ℕ → Bytes → Bytes
mode_group a value = token a false (codes ",") false value

-- The groups of `CHANMODES`, into an empty map
unfoldable pub chan_modes_of : Bytes → List (ℕ × ModeArgs)
unfolding set_types mode_group
chan_modes_of value = set_types (mode_group 3 value) (args_of 3) (
    set_types (mode_group 2 value) (args_of 2)
      (set_types (mode_group 1 value) (args_of 1) (set_types (mode_group 0 value) (args_of 0) [])))

abbrev pub is_nil : Bytes → Bool
is_nil [] = true
is_nil (c ∷ s) = false

-- `PREFIX`
unfoldable pub set_prefix : Bytes → ModeTable → ModeTable
unfolding trim_left
set_prefix value t =
    let prefixes = token 1 false (codes ")") false value in
    let modes = trim_left (codes "(") (token 0 false (codes ")") false value) in
    if not (is_nil prefixes) && length modes == length prefixes
    then record t { perms = prefixes; perm_modes = modes }
    else t

abbrev pub named : Bytes → Bytes → Bool
named name word = equals insensitive name word

-- The value of one name
unfoldable pub set_value : Bytes → Bytes → Support → Support
unfolding set_prefix chan_modes_of to_uint equals
set_value name value s =
    if named name (codes "PREFIX")
    then record s { table = set_prefix value s.table }
    else if named name (codes "CHANTYPES")
    then record s { chan_prefixes = value }
    else if named name (codes "NICKLEN")
    then (if to_uint value == 0 then s else record s { max_nick_len = to_uint value })
    else if named name (codes "CHANMODES")
    then (if is_nil value
        then s
        else record s { table = record s.table { chan_modes = chan_modes_of value } })
    else if named name (codes "NAMESX")
    then (if s.namesx then s else record s { namesx = true; put = codes "PROTOCTL NAMESX" ∷ s.put })
    else if named name (codes "UHNAMES")
    then (if s.uh_names
        then s
        else record s { uh_names = true; put = codes "PROTOCTL UHNAMES" ∷ s.put })
    else s

abbrev pub begins_colon : Bytes → Bool
begins_colon [] = false
begins_colon (c ∷ s) = c == b':'

abbrev pub param_name : Bytes → Bytes
param_name p = token 0 false (codes "=") false p

abbrev pub param_value : Bytes → Bytes
param_value p = token 1 true (codes "=") false p

-- The loop over the parameters; the last one is not read.
unfoldable pub support_loop : List Bytes → Support → Support
unfolding set_value token insert
support_loop [] s = s
support_loop (p ∷ []) s = s
support_loop (p ∷ q ∷ ps) s =
    let rest = support_loop (q ∷ ps) (
      set_value (param_name p) (param_value p)
        (record s { values = insert (param_name p) (param_value p) s.values })) in
    if begins_colon (param_name p) then s else rest

abbrev pub behind_first : List Bytes → List Bytes
behind_first [] = []
behind_first (p ∷ ps) = ps

-- `ParseISupport`
unfoldable pub parse_isupport : Message → Support → Support
unfolding support_loop
parse_isupport m s = support_loop (behind_first m.params) s

abbrev value_or : Bytes → Option Bytes → Bytes
value_or default none = default
value_or default (some v) = v

-- `GetISupport`
unfoldable pub get_isupport : Bytes → Bytes → Support → Bytes
unfolding find to_upper
get_isupport key default s = value_or default (find (as_upper key) s.values)

-- `GetModeFromPerm`
unfoldable pub mode_at : ℕ → Bytes → Bytes → ℕ
mode_at c (m ∷ modes) (p ∷ perms) = if p == c then m else mode_at c modes perms
mode_at c _ _ = 0

unfoldable pub get_mode_from_perm : ModeTable → ℕ → ℕ
unfolding mode_at
get_mode_from_perm t c =
    if length t.perm_modes == length t.perms then mode_at c t.perm_modes t.perms else 0

-- The constructor of `CIRCSock`, in a network with the channel prefixes `prefixes`
abbrev pub first_support : Bytes → Support
first_support prefixes = record {
  values = [];
  table = record {
    perms = codes "*!@%+";
    perm_modes = codes "qaohv";
    chan_modes = set_types (codes "ptisn") ModeArgs.no_arg (
        set_types (codes "l") ModeArgs.arg_when_set
          (set_types (codes "k") ModeArgs.has_arg (set_types (codes "beI") ModeArgs.list_arg [])));
  };
  chan_prefixes = prefixes;
  max_nick_len = 9;
  namesx = false;
  uh_names = false;
  put = [];
}
