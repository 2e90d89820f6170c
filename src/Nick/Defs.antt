-- ===== src/Nick/Defs.antt =====
-- The fields and methods of `CNick`. The pointer to the network serves only to reach the permission
-- characters of its server: `none` stands for no network, or one with no IRC connection.
use znc_playground.Prelude.{
  ℕ, Bool, true, false, not, ◌&&◌, ◌||◌, [], ◌∷◌, ◌++◌, Option, none, some, ◌==◌, if◌then◌else◌,
  Bytes, codes,
}
use znc_playground.Text.Compare.{equals, insensitive}
use znc_playground.Text.Split.{split_at}
use znc_playground.Text.Trim.{contains_char}

pub record Nick : Type 0 where
  pub nick : Bytes
  pub ident : Bytes
  pub host : Bytes
  pub perms : Bytes

-- `CNick()`
abbrev pub empty_nick : Nick
empty_nick = record { nick = []; ident = []; host = []; perms = [] }

-- `substr((s[0] == ':'))`
unfoldable pub drop_colon : Bytes → Bytes
drop_colon [] = []
drop_colon (c ∷ s) = if c == b':' then s else c ∷ s

-- The part of `Parse` behind the `!`
abbrev set_user : Nick → Bytes → Option (Bytes × Bytes) → Nick
set_user n user none = record n { host = user }
set_user n user (some (i, h)) = record n { ident = i; host = h }

abbrev set_parts : Nick → Bytes → Option (Bytes × Bytes) → Nick
set_parts n mask none = record n { nick = drop_colon mask }
set_parts n mask (some (before, user)) =
    set_user (record n { nick = drop_colon before }) user (split_at b'@' user)

unfoldable pub parse : Nick → Bytes → Nick
unfolding split_at drop_colon
parse n [] = n
parse n (c ∷ mask) = set_parts n (c ∷ mask) (split_at b'!' (c ∷ mask))

abbrev prefixed : ℕ → Bytes → Bytes
prefixed c [] = []
prefixed c (x ∷ s) = c ∷ x ∷ s

abbrev user_at : Bytes → Bytes → Bytes
user_at ident [] = []
user_at ident (h ∷ host) = prefixed b'!' ident ++ b'@' ∷ h ∷ host

-- `GetNickMask`: an ident is shown only in front of a host.
unfoldable pub get_nick_mask : Nick → Bytes
get_nick_mask n = n.nick ++ user_at n.ident n.host

unfoldable pub get_host_mask : Nick → Bytes
get_host_mask n = n.nick ++ (prefixed b'!' n.ident ++ prefixed b'@' n.host)

unfoldable pub nick_equals : Nick → Bytes → Bool
unfolding equals
nick_equals n name = equals insensitive n.nick name

unfoldable pub has_perm : Nick → ℕ → Bool
unfolding contains_char
has_perm n c = not (c == 0) && contains_char n.perms c

-- The nick afterwards, and whether the permission is new
unfoldable pub add_perm : Nick → ℕ → Nick × Bool
unfolding has_perm
add_perm n c =
    if c == 0 || has_perm n c then (n, false) else (record n { perms = n.perms ++ c ∷ [] }, true)

-- `find` and `erase(uPos, 1)`
unfoldable pub erase_char : ℕ → Bytes → Bytes
erase_char c [] = []
erase_char c (x ∷ s) = if x == c then s else x ∷ erase_char c s

-- The nick afterwards, and whether the permission was there
unfoldable pub rem_perm : Nick → ℕ → Nick × Bool
unfolding contains_char erase_char
rem_perm n c =
    if not (contains_char n.perms c)
    then (n, false)
    else (record n { perms = erase_char c n.perms }, true)

-- The permission characters of the server, highest first
abbrev pub server_perms : Option Bytes → Bytes
server_perms none = codes "@+"
server_perms (some perms) = perms

unfoldable pub perm_char_in : Nick → Bytes → ℕ
perm_char_in n [] = 0
perm_char_in n (c ∷ s) = let rest = perm_char_in n s in if has_perm n c then c else rest

unfoldable pub get_perm_char : Nick → Option Bytes → ℕ
unfolding perm_char_in has_perm
get_perm_char n irc = perm_char_in n (server_perms irc)

unfoldable pub perm_str_in : Nick → Bytes → Bytes
perm_str_in n [] = []
perm_str_in n (c ∷ s) = let rest = perm_str_in n s in if has_perm n c then c ∷ rest else rest

unfoldable pub get_perm_str : Nick → Option Bytes → Bytes
unfolding perm_str_in has_perm
get_perm_str n irc = perm_str_in n (server_perms irc)

-- `Clone`: what is left of the old nick is nothing, since every field is copied.
unfoldable pub clone : Nick → Nick → Nick
clone n source = record n {
  nick = source.nick;
  ident = source.ident;
  host = source.host;
  perms = source.perms;
}
