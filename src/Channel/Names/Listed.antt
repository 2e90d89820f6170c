-- ===== src/Channel/Names/Listed.antt =====
-- What `AddNick` does with a listed name that has permission characters in front and the ident and
-- the host behind it.
use znc_playground.Channel.Defs.{ModeTable, Chan}
use znc_playground.Channel.Names.Defs.{
  is_perm_char, take_perms, before, behind, add_listed, add_nick_parts, add_nick,
}
use znc_playground.Nick.{empty_nick, parse}
use znc_playground.Prelude.{
  ◌≡◌, ◌≢◌, refl, ap, ap₂, ◌∙◌, true, false, [], ◌∷◌, ◌++◌, some, All, Bytes, arith,
}
use znc_playground.Text.Compare.CStr.{c_str-Lacks}
use znc_playground.Text.Split.{Lacks, split_at-Lacks}
use znc_playground.Text.Token.{Starts, token-first, token-rest, token-next}

-- A listed name: permission characters, the nick, the ident and the host
pub record Listing : Type 0 where
  pub prefix : Bytes
  pub name : Bytes
  pub ident : Bytes
  pub host : Bytes

abbrev pub user_of : Listing → Bytes
user_of l = l.ident ++ b'@' ∷ l.host

abbrev pub mask_of : Listing → Bytes
mask_of l = l.name ++ b'!' ∷ user_of l

abbrev pub listing_text : Listing → Bytes
listing_text l = l.prefix ++ mask_of l

abbrev pub StartsPlain : ModeTable → Bytes → Type 0
StartsPlain t [] = ⊥
StartsPlain t (c ∷ s) = (is_perm_char t c ≡ false) × (c ≢ b':')

-- A name whose parts can be told apart, with no NUL
pub record IsListing (t : ModeTable) (l : Listing) : Type 0 where
  pub perm_chars : All (λ c. is_perm_char t c ≡ true) l.prefix
  pub name_start : StartsPlain t l.name
  pub name_plain : Lacks b'!' l.name
  pub ident_some : l.ident ≢ []
  pub ident_start : Starts b'!' l.ident
  pub ident_plain : Lacks b'@' l.ident
  pub host_some : l.host ≢ []
  pub host_start : Starts b'@' l.host
  pub text_plain : Lacks 0 (listing_text l)

take_perms-plain : (t : ModeTable) (s : Bytes) → StartsPlain t s → take_perms t s ≡ some ([], s)
unfolding take_perms
take_perms-plain t [] h = absurd h
take_perms-plain t (c ∷ []) h = rw h.0 refl
take_perms-plain t (c ∷ d ∷ s) h = rw h.0 refl

take_perms-append :
    (t : ModeTable) (p s : Bytes)
    → All (λ c. is_perm_char t c ≡ true) p
    → StartsPlain t s
    → take_perms t (p ++ s) ≡ some (p, s)
unfolding take_perms
take_perms-append t [] s h k = take_perms-plain t s k
take_perms-append t (c ∷ []) [] h k = absurd k
take_perms-append t (c ∷ []) (d ∷ s) h k = rw (h.0, take_perms-plain t (d ∷ s) k) refl
take_perms-append t (c ∷ d ∷ p) s h k = rw (h.0, take_perms-append t (d ∷ p) s h.1 k) refl

StartsPlain-append : (t : ModeTable) (s r : Bytes) → StartsPlain t s → StartsPlain t (s ++ r)
StartsPlain-append t [] r h = absurd h
StartsPlain-append t (c ∷ s) r h = h

StartsPlain-ne : (t : ModeTable) (s : Bytes) → StartsPlain t s → s ≢ []
StartsPlain-ne t [] h e = h
StartsPlain-ne t (c ∷ s) h e = cc

Starts-user : (ident rest : Bytes) → ident ≢ [] → Starts b'!' ident → Starts b'!' (ident ++ rest)
Starts-user [] rest n h = absurd (n refl)
Starts-user (c ∷ ident) rest n h = h

-- The parts that the tokens give
module _ (t : ModeTable) (l : Listing) (ok : IsListing t l) where
  name_ne : l.name ≢ []
  name_ne = StartsPlain-ne t l.name ok.name_start

  before-mask : before b'!' (mask_of l) ≡ l.name
  before-mask = token-first b'!' (omega arith) l.name (user_of l) ok.name_plain name_ne

  user_start : Starts b'!' (user_of l)
  user_start = Starts-user l.ident (b'@' ∷ l.host) ok.ident_some ok.ident_start

  behind-mask : behind b'!' (mask_of l) ≡ user_of l
  behind-mask =
      token-next b'!' (omega arith) 0 true l.name (user_of l) ok.name_plain name_ne user_start
      ∙ token-rest b'!' (omega arith) (user_of l) user_start

  before-user : before b'@' (user_of l) ≡ l.ident
  before-user = token-first b'@' (omega arith) l.ident l.host ok.ident_plain ok.ident_some

  behind-user : behind b'@' (user_of l) ≡ l.host
  behind-user =
      token-next b'@' (omega arith) 0 true l.ident l.host ok.ident_plain ok.ident_some ok.host_start
      ∙ token-rest b'@' (omega arith) l.host ok.host_start

  pub add_nick-add_listed :
      (cur : Bytes) (ch : Chan)
      → add_nick t cur ch (listing_text l)
        ≡ (add_listed cur ch l.prefix l.name l.ident l.host, true)
  unfolding add_nick add_nick_parts
  add_nick-add_listed cur ch =
      ap (λ s. add_nick_parts cur ch (take_perms t s)) (c_str-Lacks (listing_text l) ok.text_plain)
      ∙ ap (add_nick_parts cur ch) (
          take_perms-append t l.prefix (mask_of l) ok.perm_chars
            (StartsPlain-append t l.name (b'!' ∷ user_of l) ok.name_start))
      ∙ ap
          (λ u. (
            add_listed cur ch l.prefix (before b'!' (mask_of l)) (before b'@' u) (behind b'@' u),
            true,
          ))
          behind-mask
      ∙ ap
          (λ n. (
            add_listed cur ch l.prefix n (before b'@' (user_of l)) (behind b'@' (user_of l)),
            true,
          ))
          before-mask
      ∙ ap₂ (λ i h. (add_listed cur ch l.prefix l.name i h, true)) before-user behind-user

pub parse-plain :
    (t : ModeTable) (s : Bytes)
    → StartsPlain t s
    → Lacks b'!' s
    → parse empty_nick s ≡ record empty_nick { nick = s }
unfolding parse
parse-plain t [] h k = absurd h
parse-plain t (c ∷ s) h k = rw (split_at-Lacks b'!' (c ∷ s) k) (ground (arith, h.1))
