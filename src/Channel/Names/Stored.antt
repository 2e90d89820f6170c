-- ===== src/Channel/Names/Stored.antt =====
-- What a channel knows of a nick when `AddNick` has read its listed name.
use znc_playground.Channel.Defs.{ModeTable, Chan}
use znc_playground.Channel.Names.Defs.{
  add_perms, listed_nick, change_place, set_unless_empty, add_listed, add_nick,
}
use znc_playground.Nick.{Nick, empty_nick, parse, add_perm, has_perm}
use znc_playground.Nick.Perms.{has_perm-add_perm}
use znc_playground.Prelude.{
  ℕ, ◌≡◌, ◌≢◌, refl, ap, ◌∙◌, Bool, false, not, ◌&&◌, ◌||◌, [], ◌∷◌, Option, none, some, ◌==◌,
  if◌then◌else◌, Bytes, bytes_eq, arith,
}
use znc_playground.StringMap.{StringMap, find, insert, find-insert}
use znc_playground.Text.Trim.{contains_char}
use znc_playground.Channel.Names.Listed.{
  Listing, IsListing, listing_text, parse-plain, add_nick-add_listed,
}

-- `AddPerm` leaves the rest of a nick.
add_perm-Same :
    (n : Nick) (c : ℕ)
    → ((add_perm n c).0.nick ≡ n.nick)
      × ((add_perm n c).0.ident ≡ n.ident)
      × ((add_perm n c).0.host ≡ n.host)
unfolding add_perm
add_perm-Same n c = ground arith

add_perms-Same :
    (p : Bytes) (n : Nick)
    → ((add_perms p n).nick ≡ n.nick)
      × ((add_perms p n).ident ≡ n.ident)
      × ((add_perms p n).host ≡ n.host)
unfolding add_perms
add_perms-Same [] n = (refl, refl, refl)
add_perms-Same (c ∷ p) n =
    let first = add_perm-Same n c in
    let rest = add_perms-Same p (add_perm n c).0 in
    (rest.0 ∙ first.0, rest.1 ∙ first.1, rest.2 ∙ first.2)

has_perm-add_perms :
    (p : Bytes) (n : Nick) (d : ℕ)
    → has_perm (add_perms p n) d ≡ (has_perm n d || not (d == 0) && contains_char p d)
unfolding add_perms contains_char
has_perm-add_perms [] n d = ground arith
has_perm-add_perms (c ∷ p) n d =
    ground (arith, has_perm-add_perms p (add_perm n c).0 d, has_perm-add_perm n c d)

abbrev had_perm : Option Nick → ℕ → Bool
had_perm none d = false
had_perm (some n) d = has_perm n d

-- A nick that is found stands under its own name.
abbrev pub IsNamed : Bytes → Option Nick → Type 0
IsNamed name none = Unit
IsNamed name (some n) = n.nick ≡ name

-- What the channel then knows of a listed nick
abbrev pub Knows : Listing → Option Nick → Nick → Type 0
Knows l old n =
    (n.nick ≡ l.name)
    × (n.ident ≡ l.ident)
    × (n.host ≡ l.host)
    × ((d : ℕ) → has_perm n d ≡ (had_perm old d || not (d == 0) && contains_char l.prefix d))

set_unless_empty-ne : (old s : Bytes) → s ≢ [] → set_unless_empty old s ≡ s
set_unless_empty-ne old [] h = absurd (h refl)
set_unless_empty-ne old (c ∷ s) h = refl

has_perm-fresh : (s : Bytes) (d : ℕ) → has_perm (record empty_nick { nick = s }) d ≡ false
unfolding has_perm
has_perm-fresh s d = ground arith

has_perm-perms : (n m : Nick) (d : ℕ) → n.perms ≡ m.perms → has_perm n d ≡ has_perm m d
unfolding has_perm
has_perm-perms n m d h = ap (λ p. not (d == 0) && contains_char p d) h

find-change_place :
    (a name : Bytes) (n : Nick) (o : Option Nick) (nicks : StringMap Nick)
    → (if bytes_eq a name then some n else find name (change_place a n o nicks))
      ≡ (if bytes_eq a name then some n else find name nicks)
find-change_place a name n none nicks = refl
find-change_place a name n (some m) nicks = ground (arith, find-insert a name n nicks)

find-add_listed :
    (cur : Bytes) (ch : Chan) (l : Listing) (name : Bytes)
    → find name (add_listed cur ch l.prefix l.name l.ident l.host).nicks
      ≡ find name (
          let n = listed_nick l.prefix l.name l.ident l.host (find l.name ch.nicks) in
          insert n.nick n (change_place l.name n (find l.name ch.nicks) ch.nicks))
unfolding add_listed
find-add_listed cur ch l name = refl

module _ (t : ModeTable) (l : Listing) (ok : IsListing t l) where
  listed_nick-Knows :
      (old : Option Nick)
      → IsNamed l.name old
      → Knows l old (listed_nick l.prefix l.name l.ident l.host old)
  unfolding listed_nick
  listed_nick-Knows none h =
      let n = parse empty_nick l.name in
      let m = record n {
        ident = set_unless_empty n.ident l.ident;
        host = set_unless_empty n.host l.host;
      } in
      let same = add_perms-Same l.prefix m in
      let plain = parse-plain t l.name ok.name_start ok.name_plain in
      (
        same.0 ∙ ap (λ (k : Nick). k.nick) plain,
        same.1 ∙ set_unless_empty-ne n.ident l.ident ok.ident_some,
        same.2 ∙ set_unless_empty-ne n.host l.host ok.host_some,
        λ d.
            has_perm-add_perms l.prefix m d
            ∙ ap (λ b. b || not (d == 0) && contains_char l.prefix d)
                (has_perm-perms m (record empty_nick { nick = l.name }) d
                    (ap (λ (k : Nick). k.perms) plain)
                  ∙ has_perm-fresh l.name d),
      )
  listed_nick-Knows (some n) h =
      let m = record n {
        ident = set_unless_empty n.ident l.ident;
        host = set_unless_empty n.host l.host;
      } in
      let same = add_perms-Same l.prefix m in
      (
        same.0 ∙ h,
        same.1 ∙ set_unless_empty-ne n.ident l.ident ok.ident_some,
        same.2 ∙ set_unless_empty-ne n.host l.host ok.host_some,
        λ d.
            has_perm-add_perms l.prefix m d
            ∙ ap (λ b. b || not (d == 0) && contains_char l.prefix d) (has_perm-perms m n d refl),
      )

  -- A listed name is stored under its nick, with its ident, its host and the permissions of its
  -- prefix beside those it had; no other name changes.
  pub find-add_nick :
      (cur : Bytes) (ch : Chan) (name : Bytes)
      → IsNamed l.name (find l.name ch.nicks)
      → (n : Nick) × Knows l (find l.name ch.nicks) n
        × (find name (add_nick t cur ch (listing_text l)).0.nicks
            ≡ (if bytes_eq l.name name then some n else find name ch.nicks))
  find-add_nick cur ch name h =
      let old = find l.name ch.nicks in
      let n = listed_nick l.prefix l.name l.ident l.host old in
      let knows = listed_nick-Knows old h in
      (
        n,
        knows,
        ap (λ (r : Chan × Bool). find name r.0.nicks) (add_nick-add_listed t l ok cur ch)
            ∙ find-add_listed cur ch l name
            ∙ find-insert n.nick name n (change_place l.name n old ch.nicks)
            ∙ ap
                (λ a.
                  if bytes_eq a name
                  then some n
                  else find name (change_place l.name n old ch.nicks))
                knows.0
            ∙ find-change_place l.name name n old ch.nicks,
      )
