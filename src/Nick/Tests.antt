-- ===== src/Nick/Tests.antt =====
-- Runs and instances of the theorems about nicks.
use znc_playground.Nick.Defs.{
  Nick, empty_nick, parse, get_nick_mask, get_host_mask, has_perm, get_perm_char, get_perm_str,
  server_perms,
}
use znc_playground.Nick.Mask.{IsFullMask, parse-get_host_mask}
use znc_playground.Nick.Perms.{get_perm_str_lem}
use znc_playground.Prelude.{◌≡◌, refl, ◌&&◌, [], ◌∷◌, codes, arith, get_or, some}
use znc_playground.Text.Trim.{contains_char}

abbrev alice : Nick
alice = record { nick = codes "alice"; ident = codes "al"; host = codes "h.org"; perms = codes "@" }

parses :
    (parse empty_nick (codes ":n!i@h")
      ≡ record { nick = codes "n"; ident = codes "i"; host = codes "h"; perms = [] })
    × (parse alice (codes "bob") ≡ record alice { nick = codes "bob" })
    × (get_nick_mask alice ≡ codes "alice!al@h.org")
    × (get_perm_str alice (some (codes "~@+")) ≡ codes "@")
unfolding parse get_nick_mask get_perm_str
parses = (refl, refl, refl, refl)

alice-IsFullMask : IsFullMask alice
alice-IsFullMask = record {
  nick_lacks = omega arith;
  nick_plain = omega arith;
  ident_lacks = omega arith;
  ident_some = λ e. cc;
  host_some = λ e. cc;
}

parse-get_host_mask_example :
    (parse empty_nick (get_host_mask alice) ≡ record alice { perms = [] })
    × (parse empty_nick (b':' ∷ get_host_mask alice) ≡ record alice { perms = [] })
parse-get_host_mask_example = parse-get_host_mask empty_nick alice alice-IsFullMask

get_perm_str_lem_example :
    (contains_char (get_perm_str alice (some (codes "~@+"))) b'@'
      ≡ (contains_char (server_perms (some (codes "~@+"))) b'@' && has_perm alice b'@'))
    × (get_perm_char alice (some (codes "~@+"))
        ≡ get_or (get_perm_str alice (some (codes "~@+"))) 0 0)
get_perm_str_lem_example = get_perm_str_lem alice (some (codes "~@+")) b'@'
