-- ===== src/Channel/Tests.antt =====
-- Runs and instances of the theorems about channels.
use znc_playground.Channel.Defs.{
  list_arg, has_arg, arg_when_set, no_arg, ModeTable, Chan, mode_key, mode_letters, mode_args,
  change_nick, get_mode_string, is_perm_mode, get_mode_type, rem_nick,
}
use znc_playground.Channel.Modes.{mode_change, set_modes}
use znc_playground.Channel.Restore.{IsSettable, set_modes-mode_letters}
use znc_playground.Channel.ModeText.{set_modes_text, IsWritten, set_modes_text-get_mode_string}
use znc_playground.Channel.Names.Defs.{add_nick, add_nicks, get_perm_counts, is_perm_char}
use znc_playground.Channel.Names.Listed.{Listing, IsListing, listing_text}
use znc_playground.Channel.Names.Stored.{Knows, IsNamed, find-add_nick}
use znc_playground.Channel.Nicks.{AgreesAt, find-change_nick, mode_change-AgreesAt}
use znc_playground.Nick.{Nick}
use znc_playground.Prelude.{
  ◌≡◌, refl, inr, if_elim, bytes_eq, bytes_eq_iff, true, false, [], ◌∷◌, none, some, Bytes, codes,
  arith, All, if◌then◌else◌, sym,
}
use znc_playground.StringMap.{insert, IsSorted, find, lt_bytes}

-- The tables that a server commonly announces
abbrev table : ModeTable
table = record {
  perms = codes "@+";
  perm_modes = codes "ov";
  chan_modes = (b'b', list_arg) ∷ (b'k', has_arg) ∷ (b'l', arg_when_set) ∷ (b'n', no_arg) ∷ [];
}

abbrev nick : Bytes → Bytes → Nick
nick name perms = record { nick = name; ident = []; host = []; perms = perms }

abbrev chan : Chan
chan = record {
  key = [];
  in_config = true;
  delayed_write = false;
  own = nick (codes "me") (codes "+");
  nicks = (codes "me", nick (codes "me") (codes "+")) ∷ [];
  modes = (mode_key b'k', codes "secret") ∷ (mode_key b'n', []) ∷ [];
}

get_mode_string_run : get_mode_string chan ≡ codes "+kn secret"
unfolding get_mode_string
get_mode_string_run = refl

mode_change_run :
    (mode_change table (codes "me") chan (codes "+o-n+l") (codes "me" ∷ codes "5" ∷ [])).chan
    ≡ record chan {
      own = nick (codes "me") (codes "+@");
      nicks = (codes "me", nick (codes "me") (codes "+@")) ∷ [];
      modes = (mode_key b'k', codes "secret") ∷ (mode_key b'l', codes "5") ∷ [];
    }
unfolding mode_change
mode_change_run = refl

rem_nick_run : (rem_nick chan (codes "me")).0.nicks ≡ []
unfolding rem_nick
rem_nick_run = refl

modes-IsSettable : All (IsSettable table) chan.modes
unfolding is_perm_mode get_mode_type
modes-IsSettable = (
  (refl, omega arith, omega arith, refl, refl, refl),
  ((refl, omega arith, omega arith, refl, refl, refl), tt),
)

modes-IsSorted : IsSorted chan.modes
unfolding lt_bytes
modes-IsSorted = ((refl, tt), (tt, tt))

set_modes-mode_letters_example :
    (set_modes table
      (codes "me")
      chan
      (b'+' ∷ mode_letters chan.modes)
      (mode_args chan.modes)).chan.modes
    ≡ chan.modes
set_modes-mode_letters_example =
    set_modes-mode_letters table (codes "me") chan modes-IsSettable modes-IsSorted

found_me : find (codes "me") chan.nicks ≡ some (nick (codes "me") (codes "+"))
unfolding find
found_me = refl

find-change_nick_example :
    find (codes "you") (change_nick chan (codes "me") (codes "you")).0.nicks ≡ (
      if bytes_eq (codes "me") (codes "you")
      then none
      else if bytes_eq (codes "you") (codes "you")
      then some (nick (codes "you") (codes "+"))
      else find (codes "you") chan.nicks)
find-change_nick_example =
    find-change_nick chan (codes "me") (codes "you") (codes "you") (nick (codes "me") (codes "+"))
      found_me

all_agree :
    (other : Bytes)
    → AgreesAt (codes "me") (codes "me") chan.own.perms other (find other chan.nicks)
unfolding find
all_agree other =
    if_elim (AgreesAt (codes "me") (codes "me") (codes "+") other) (bytes_eq (codes "me") other) _ _
      (λ e. inr (sym ((bytes_eq_iff (codes "me") other).0 e), refl)) (λ e. tt)

mode_change-AgreesAt_example :
    AgreesAt
      (codes "me")
      (codes "me")
      (mode_change table (codes "me") chan (codes "+o") (codes "me" ∷ [])).chan.own.perms
      (codes "me")
      (find
        (codes "me")
        (mode_change table (codes "me") chan (codes "+o") (codes "me" ∷ [])).chan.nicks)
mode_change-AgreesAt_example =
    mode_change-AgreesAt table (codes "me") (codes "me") chan (codes "+o") (codes "me" ∷ [])
      (codes "me") all_agree

set_modes_text_run :
    (set_modes_text table (codes "me") chan (codes "+lk-n 5 :two words")).chan.modes
    ≡ (mode_key b'k', codes "two words") ∷ (mode_key b'l', codes "5") ∷ []
unfolding set_modes_text
set_modes_text_run = refl

modes-IsWritten : All (IsWritten table (codes "me")) chan.modes
modes-IsWritten = ground arith

set_modes_text-get_mode_string_example :
    (set_modes_text table (codes "me") chan (get_mode_string chan)).chan.modes ≡ chan.modes
set_modes_text-get_mode_string_example =
    set_modes_text-get_mode_string table (codes "me") chan modes-IsWritten modes-IsSettable
      modes-IsSorted

abbrev listing : Listing
listing = record {
  prefix = codes "@+";
  name = codes "bob";
  ident = codes "b";
  host = codes "example.org";
}

listing-IsListing : IsListing table listing
unfolding is_perm_char
listing-IsListing = ground arith

add_nicks_run : (add_nicks table (codes "me") chan (codes "@+bob!b@example.org  @ carl")).1 ≡ 2
unfolding add_nicks find insert
add_nicks_run = refl

get_perm_counts_run : get_perm_counts (some (codes "@+")) chan b'+' ≡ 1
unfolding get_perm_counts
get_perm_counts_run = refl

none_found : IsNamed (codes "bob") (find (codes "bob") chan.nicks)
unfolding find
none_found = tt

find-add_nick_example :
    (n : Nick) × Knows listing (find (codes "bob") chan.nicks) n
    × (find (codes "bob") (add_nick table (codes "me") chan (listing_text listing)).0.nicks
        ≡ (if bytes_eq (codes "bob") (codes "bob") then some n else find (codes "bob") chan.nicks))
find-add_nick_example =
    find-add_nick table listing listing-IsListing (codes "me") chan (codes "bob") none_found
