-- ===== src/Channel/Names/Defs.antt =====
-- The names of a channel, one by one and in a line. A `char` is its unsigned value.
use znc_playground.Channel.Defs.{ModeTable, Chan}
use znc_playground.Nick.{Nick, empty_nick, parse, add_perm, nick_equals, get_perm_str}
use znc_playground.Prelude.{
  ℕ, ◌+◌, Bool, true, false, not, ◌&&◌, List, [], ◌∷◌, Option, none, some, ◌==◌, if◌then◌else◌,
  Bytes,
}
use znc_playground.StringMap.{StringMap, find, insert}
use znc_playground.Text.Compare.{c_str}
use znc_playground.Text.SplitBy.{words}
use znc_playground.Text.Token.{token}
use znc_playground.Text.Trim.{contains_char}
use mathlib.Core.Option

unfoldable pub is_perm_char : ModeTable → ℕ → Bool
unfolding contains_char
is_perm_char t c = not (c == 0) && contains_char t.perms c

-- The permission characters in front and what stands behind them, or `none` where nothing does
unfoldable pub take_perms : ModeTable → Bytes → Option (Bytes × Bytes)
unfolding is_perm_char
take_perms t [] = some ([], [])
take_perms t (c ∷ []) = if is_perm_char t c then none else some ([], c ∷ [])
take_perms t (c ∷ d ∷ s) =
    let more = Option.map (λ (r : Bytes × Bytes). (c ∷ r.0, r.1)) (take_perms t (d ∷ s)) in
    if is_perm_char t c then more else some ([], c ∷ d ∷ s)

-- The calls of `AddPerm` for the characters of a prefix
unfoldable pub add_perms : Bytes → Nick → Nick
unfolding add_perm
add_perms [] n = n
add_perms (c ∷ prefix) n = add_perms prefix (add_perm n c).0

abbrev pub set_unless_empty : Bytes → Bytes → Bytes
set_unless_empty old [] = old
set_unless_empty old (c ∷ new) = c ∷ new

-- `Token(0, false, sep)` and `Token(1, true, sep)`
abbrev pub before : ℕ → Bytes → Bytes
before sep s = token 0 false (sep ∷ []) false s

abbrev pub behind : ℕ → Bytes → Bytes
behind sep s = token 1 true (sep ∷ []) false s

-- The nick that `FindNick` finds, or a new one, with the ident, the host and the permissions
unfoldable pub listed_nick : Bytes → Bytes → Bytes → Bytes → Option Nick → Nick
unfolding parse add_perms
listed_nick prefix name ident host none =
    let n = parse empty_nick name in
    add_perms prefix
      (record n { ident = set_unless_empty n.ident ident; host = set_unless_empty n.host host })
listed_nick prefix name ident host (some n) =
    add_perms prefix
      (record n { ident = set_unless_empty n.ident ident; host = set_unless_empty n.host host })

-- A nick that is found is changed in its place before it is stored under its name.
abbrev pub change_place : Bytes → Nick → Option Nick → StringMap Nick → StringMap Nick
change_place name changed none nicks = nicks
change_place name changed (some n) nicks = insert name changed nicks

unfoldable pub add_listed : Bytes → Chan → Bytes → Bytes → Bytes → Bytes → Chan
unfolding listed_nick nick_equals add_perms insert find
add_listed cur ch prefix name ident host =
    let old = find name ch.nicks in
    let n = listed_nick prefix name ident host old in
    record ch {
      own = if nick_equals n cur then add_perms prefix ch.own else ch.own;
      nicks = insert n.nick n (change_place name n old ch.nicks);
    }

unfoldable pub add_nick_parts : Bytes → Chan → Option (Bytes × Bytes) → Chan × Bool
unfolding add_listed
add_nick_parts cur ch none = (ch, false)
add_nick_parts cur ch (some (prefix, s)) =
    let user = behind b'!' s in
    (add_listed cur ch prefix (before b'!' s) (before b'@' user) (behind b'@' user), true)

unfoldable pub add_nick : ModeTable → Bytes → Chan → Bytes → Chan × Bool
unfolding add_nick_parts take_perms c_str
add_nick t cur ch s = add_nick_parts cur ch (take_perms t (c_str s))

-- The loop of `AddNicks`, with `iRet`
unfoldable pub add_each : ModeTable → Bytes → Chan → ℕ → List Bytes → Chan × ℕ
unfolding add_nick
add_each t cur ch count [] = (ch, count)
add_each t cur ch count (s ∷ names) =
    let (next, added) = add_nick t cur ch s in
    add_each t cur next (if added then count + 1 else count) names

unfoldable pub add_nicks : ModeTable → Bytes → Chan → Bytes → Chan × ℕ
unfolding add_each words
add_nicks t cur ch s = add_each t cur ch 0 (words s)

-- `mRet[c]++` over a map as a function of the character
unfoldable pub count_chars : Bytes → (ℕ → ℕ) → ℕ → ℕ
count_chars [] counts d = counts d
count_chars (c ∷ s) counts d = count_chars s (λ e. if c == e then counts e + 1 else counts e) d

unfoldable pub count_perms : Option Bytes → StringMap Nick → (ℕ → ℕ) → ℕ → ℕ
unfolding count_chars get_perm_str
count_perms irc [] counts d = counts d
count_perms irc ((name, n) ∷ nicks) counts d =
    count_perms irc nicks (count_chars (get_perm_str n irc) counts) d

unfoldable pub get_perm_counts : Option Bytes → Chan → ℕ → ℕ
unfolding count_perms
get_perm_counts irc ch = count_perms irc ch.nicks (λ d. 0)
