-- ===== src/Nick/Mask.antt =====
-- Masks: what `Parse` reads back from the text that `GetHostMask` writes.
use znc_playground.Prelude.{ℕ, ◌≡◌, ◌≢◌, refl, ◌∙◌, [], ◌∷◌, ◌++◌, arith, Bytes, append-nil}
use znc_playground.Nick.Defs.{Nick, parse, drop_colon, get_host_mask}
use znc_playground.Text.Split.{Lacks, split_at-append, split_at-Lacks}

-- The text does not begin with a colon.
abbrev pub NoColon : Bytes → Type 0
NoColon [] = Unit
NoColon (c ∷ s) = c ≢ b':'

-- A nick whose mask shows every part in its place.
pub record IsFullMask (n : Nick) : Type 0 where
  pub nick_lacks : Lacks b'!' n.nick
  pub nick_plain : NoColon n.nick
  pub ident_lacks : Lacks b'@' n.ident
  pub ident_some : n.ident ≢ []
  pub host_some : n.host ≢ []

full_mask :
    (n : Nick) → IsFullMask n → get_host_mask n ≡ n.nick ++ b'!' ∷ (n.ident ++ b'@' ∷ n.host)
unfolding get_host_mask
full_mask n h = ground arith

drop_colon-NoColon : (s : Bytes) → NoColon s → drop_colon s ≡ s
unfolding drop_colon
drop_colon-NoColon [] h = refl
drop_colon-NoColon (c ∷ s) h = ground arith

-- What `Parse` does with a mask that has all three parts
parse_parts :
    (m : Nick) (nick ident host : Bytes)
    → Lacks b'!' nick
    → Lacks b'@' ident
    → parse m (nick ++ b'!' ∷ (ident ++ b'@' ∷ host))
      ≡ record m { nick = drop_colon nick; ident = ident; host = host }
unfolding parse
parse_parts m [] ident host h k = rw (split_at-append b'@' ident host k) refl
parse_parts m (c ∷ nick) ident host h k =
    let user = ident ++ b'@' ∷ host in
    rw (split_at-append b'!' (c ∷ nick) user h, split_at-append b'@' ident host k) refl

-- A full mask is read back whatever nick it is read into, with a colon in front or without one. The
-- permissions of that nick stay.
pub parse-get_host_mask :
    (m n : Nick)
    → IsFullMask n
    → (parse m (get_host_mask n) ≡ record n { perms = m.perms })
      × (parse m (b':' ∷ get_host_mask n) ≡ record n { perms = m.perms })
parse-get_host_mask m n h = (
  rw (full_mask n h) (
      parse_parts m n.nick n.ident n.host h.nick_lacks h.ident_lacks
      ∙ rw (drop_colon-NoColon n.nick h.nick_plain)),
  rw (full_mask n h) (
      parse_parts m (b':' ∷ n.nick) n.ident n.host (colon_ne, h.nick_lacks) h.ident_lacks
      ∙ unfold drop_colon in refl),
)
  where
    colon_ne : ◌≢◌ {A = ℕ} b':' b'!'
    colon_ne = omega arith

-- A name with no `!`, as a server has, is shown and read as it is.
pub server_mask :
    (name : Bytes)
    → get_host_mask (record { nick = name; ident = []; host = []; perms = [] }) ≡ name
unfolding get_host_mask
server_mask name = append-nil name

pub parse-server_name :
    (m : Nick) (name : Bytes)
    → name ≢ []
    → Lacks b'!' name
    → NoColon name
    → parse m name ≡ record m { nick = name }
unfolding parse
parse-server_name m [] n h k = absurd (n refl)
parse-server_name m (c ∷ name) n h k =
    rw (split_at-Lacks b'!' (c ∷ name) h) (rw (drop_colon-NoColon (c ∷ name) k))
