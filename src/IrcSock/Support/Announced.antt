-- ===== src/IrcSock/Support/Announced.antt =====
-- What the connection knows after a reply that announces its modes.
use znc_playground.Channel.Defs.{perm_at}
use znc_playground.Channel.{get_perm_from_mode, get_mode_type}
use znc_playground.IrcSock.Support.Defs.{Support, behind_first, support_loop, parse_isupport}
use znc_playground.IrcSock.Support.Tables.{
  AreGroups, type_of, type_in-chan_modes_of, ArePrefixes, ==_of,
}
use znc_playground.Message.{Message}
use znc_playground.Prelude.{ℕ, ◌≡◌, refl, ap, ◌∙◌, List, [], ◌∷◌, ◌++◌, length, All, Bytes, arith}
use znc_playground.Text.Split.{Lacks}
use znc_playground.IrcSock.Support.Reply.{
  IsOther, prefix_param, chan_modes_param, announced, announcing, tables_read,
}

-- The first place of the mode, and the prefix that stands there
perm_at-place :
    (xs ys us vs : Bytes) (mode perm : ℕ)
    → length xs ≡ length us
    → Lacks mode xs
    → perm_at mode (xs ++ mode ∷ ys) (us ++ perm ∷ vs) ≡ perm
unfolding perm_at
perm_at-place [] ys [] vs mode perm e h = ground arith
perm_at-place [] ys (u ∷ us) vs mode perm e h = absurd (omega arith)
perm_at-place (x ∷ xs) ys [] vs mode perm e h = absurd (omega arith)
perm_at-place (x ∷ xs) ys (u ∷ us) vs mode perm e h =
    let (n, hs) = h in ground (arith, perm_at-place xs ys us vs mode perm (omega arith) hs)

perm_at-absent :
    (modes prefixes : Bytes) (mode : ℕ) → Lacks mode modes → perm_at mode modes prefixes ≡ 0
unfolding perm_at
perm_at-absent [] [] mode h = refl
perm_at-absent [] (p ∷ prefixes) mode h = refl
perm_at-absent (x ∷ modes) [] mode h = refl
perm_at-absent (x ∷ modes) (p ∷ prefixes) mode h =
    let (n, hs) = h in ground (arith, perm_at-absent modes prefixes mode hs)

get_perm_from_mode-announced :
    (modes prefixes a b c d : Bytes) (mode : ℕ)
    → length modes ≡ length prefixes
    → get_perm_from_mode (announced modes prefixes a b c d) mode ≡ perm_at mode modes prefixes
unfolding get_perm_from_mode
get_perm_from_mode-announced modes prefixes a b c d mode e =
    rw (==_of (length modes) (length prefixes) e) refl

-- A reply announces permission modes and as many prefixes, at least one and without brackets, and four
-- groups of channel modes, none of them empty and none with a comma, the first without `=`. In front of
-- them, between them and behind them stand parameters with a name that is neither PREFIX nor CHANMODES
-- and does not begin with a colon, and a text at the end. After it GetPermFromMode gives the prefix in
-- the place where the mode stands first, and NUL for one that is not among the modes, and GetModeType
-- gives each mode the type of the last group that it stands in, whatever was known before.
pub parse_isupport-tables :
    (m : Message) (s : Support) (before between behind : List Bytes)
    (me text xs ys us vs a b c d : Bytes) (mode perm absent other : ℕ)
    → All IsOther before
    → All IsOther between
    → All IsOther behind
    → ArePrefixes (xs ++ mode ∷ ys) (us ++ perm ∷ vs)
    → length xs ≡ length us
    → Lacks mode xs
    → Lacks absent (xs ++ mode ∷ ys)
    → AreGroups a b c d
    → Lacks b'=' a
    → m.params
      ≡ me
        ∷ announcing before
            (prefix_param (xs ++ mode ∷ ys) (us ++ perm ∷ vs))
            between
            (chan_modes_param a b c d)
            behind
            text
    → (get_perm_from_mode (parse_isupport m s).table mode ≡ perm)
      × (get_perm_from_mode (parse_isupport m s).table absent ≡ 0)
      × (get_mode_type (parse_isupport m s).table other ≡ type_of a b c d other)
unfolding parse_isupport get_mode_type
parse_isupport-tables m s before between behind me text xs ys us vs a b c d mode perm absent other
      hb ht hr p same first none_there g h e =
    let modes = xs ++ mode ∷ ys in
    let prefixes = us ++ perm ∷ vs in
    let read : (parse_isupport m s).table ≡ announced modes prefixes a b c d =
      ap (λ ps. (support_loop (behind_first ps) s).table) e
      ∙ tables_read s before between behind text modes prefixes a b c d hb ht hr p g h in
    (
      ap (λ t. get_perm_from_mode t mode) read
          ∙ get_perm_from_mode-announced modes prefixes a b c d mode p.1
          ∙ perm_at-place xs ys us vs mode perm same first,
      ap (λ t. get_perm_from_mode t absent) read
          ∙ get_perm_from_mode-announced modes prefixes a b c d absent p.1
          ∙ perm_at-absent modes prefixes absent none_there,
      ap (λ t. get_mode_type t other) read ∙ type_in-chan_modes_of a b c d g other,
    )
