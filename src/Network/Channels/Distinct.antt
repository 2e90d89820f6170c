-- ===== src/Network/Channels/Distinct.antt =====
-- Lists of channels in which no two have the same name, and what moving channels does to them.
use znc_playground.Network.Channels.Defs.{ListedChan, erase_at, insert_at}
use znc_playground.Prelude.{
  ℕ, zero, suc, ◌≡◌, refl, sym, ◌∙◌, false, List, [], ◌∷◌, some, All, arith, get_elem?, set,
  bytes_eq, Bytes,
}
use mathlib.Core.Path.{subst}
use mathlib.Core.Option.{some-injective}
use znc_playground.Text.Compare.{equals, insensitive, as_lower, c_str}

abbrev pub Differ : ListedChan → ListedChan → Type 0
Differ c d = equals insensitive c.name d.name ≡ false

-- No channel has the name of one behind it, in whatever case.
abbrev pub AreDistinct : List ListedChan → Type 0
AreDistinct [] = Unit
AreDistinct (c ∷ chans) = All (Differ c) chans × AreDistinct chans

bytes_eq_comm : (a b : Bytes) → bytes_eq a b ≡ bytes_eq b a
unfolding bytes_eq
bytes_eq_comm (x ∷ a) (y ∷ b) = ground (arith, bytes_eq_comm a b)
bytes_eq_comm [] [] = refl
bytes_eq_comm [] (y ∷ b) = refl
bytes_eq_comm (x ∷ a) [] = refl

pub Differ-sym : (c d : ListedChan) → Differ c d → Differ d c
unfolding equals
Differ-sym c d h = bytes_eq_comm (as_lower (c_str d.name)) (as_lower (c_str c.name)) ∙ h

All-erase_at :
    (P : ListedChan → Type 0) (i : ℕ) (chans : List ListedChan)
    → All P chans
    → All P (erase_at i chans)
unfolding erase_at
All-erase_at P i [] h = h
All-erase_at P zero (c ∷ chans) h = h.1
All-erase_at P (suc i) (c ∷ chans) h = (h.0, All-erase_at P i chans h.1)

All-insert_at :
    (P : ListedChan → Type 0) (i : ℕ) (d : ListedChan) (chans : List ListedChan)
    → P d
    → All P chans
    → All P (insert_at i d chans)
unfolding insert_at
All-insert_at P zero d chans p h = (p, h)
All-insert_at P (suc i) d [] p h = (p, tt)
All-insert_at P (suc i) d (c ∷ chans) p h = (h.0, All-insert_at P i d chans p h.1)

All-set :
    (P : ListedChan → Type 0) (i : ℕ) (d : ListedChan) (chans : List ListedChan)
    → P d
    → All P chans
    → All P (set chans i d)
All-set P i d [] p h = h
All-set P zero d (c ∷ chans) p h = (p, h.1)
All-set P (suc i) d (c ∷ chans) p h = (h.0, All-set P i d chans p h.1)

All-get_elem? :
    (P : ListedChan → Type 0) (i : ℕ) (chans : List ListedChan) (d : ListedChan)
    → All P chans
    → get_elem? chans i ≡ some d
    → P d
All-get_elem? P i [] d h e = absurd (ground arith)
All-get_elem? P zero (c ∷ chans) d h e = rw (sym (some-injective c d e)) h.0
All-get_elem? P (suc i) (c ∷ chans) d h e = All-get_elem? P i chans d h.1 e

pub AreDistinct-erase_at :
    (i : ℕ) (chans : List ListedChan) → AreDistinct chans → AreDistinct (erase_at i chans)
unfolding erase_at
AreDistinct-erase_at i [] h = h
AreDistinct-erase_at zero (c ∷ chans) h = h.1
AreDistinct-erase_at (suc i) (c ∷ chans) h =
    (All-erase_at (Differ c) i chans h.0, AreDistinct-erase_at i chans h.1)

pub AreDistinct-insert_at :
    (i : ℕ) (d : ListedChan) (chans : List ListedChan)
    → All (Differ d) chans
    → AreDistinct chans
    → AreDistinct (insert_at i d chans)
unfolding insert_at
AreDistinct-insert_at zero d chans p h = (p, h)
AreDistinct-insert_at (suc i) d [] p h = (tt, tt)
AreDistinct-insert_at (suc i) d (c ∷ chans) p h = (
  All-insert_at (Differ c) i d chans (Differ-sym d c p.0) h.0,
  AreDistinct-insert_at i d chans p.1 h.1,
)

-- The erased channel differs from those that stay.
pub Differ-erased :
    (i : ℕ) (chans : List ListedChan) (d : ListedChan)
    → AreDistinct chans
    → get_elem? chans i ≡ some d
    → All (Differ d) (erase_at i chans)
unfolding erase_at
Differ-erased i [] d h e = tt
Differ-erased zero (c ∷ chans) d h e = rw (sym (some-injective c d e)) h.0
Differ-erased (suc i) (c ∷ chans) d h e =
    (Differ-sym c d (All-get_elem? (Differ c) i chans d h.0 e), Differ-erased i chans d h.1 e)

-- A channel written over the one that it does not differ from
set-Differ :
    (i : ℕ) (chans : List ListedChan) (c d : ListedChan)
    → AreDistinct chans
    → Differ d c
    → get_elem? chans i ≡ some d
    → All (Differ d) (set chans i c)
set-Differ i [] c d h p e = tt
set-Differ zero (b ∷ chans) c d h p e =
    (p, subst (λ x. All (Differ x) chans) (some-injective b d e) h.0)
set-Differ (suc i) (b ∷ chans) c d h p e =
    (Differ-sym b d (All-get_elem? (Differ b) i chans d h.0 e), set-Differ i chans c d h.1 p e)

AreDistinct-set :
    (i : ℕ) (chans : List ListedChan) (c : ListedChan)
    → AreDistinct chans
    → All (Differ c) chans
    → AreDistinct (set chans i c)
AreDistinct-set i [] c h p = h
AreDistinct-set zero (b ∷ chans) c h p = (p.1, h.1)
AreDistinct-set (suc i) (b ∷ chans) c h p =
    (All-set (Differ b) i c chans (Differ-sym c b p.0) h.0, AreDistinct-set i chans c h.1 p.1)

swap_first :
    (j : ℕ) (b : ListedChan) (chans : List ListedChan) (d : ListedChan)
    → AreDistinct (b ∷ chans)
    → get_elem? chans j ≡ some d
    → AreDistinct (d ∷ set chans j b)
swap_first j b chans d h e = (
  set-Differ j chans b d h.1 (Differ-sym b d (All-get_elem? (Differ b) j chans d h.0 e)) e,
  AreDistinct-set j chans b h.1 h.0,
)

pub AreDistinct-swap :
    (i j : ℕ) (chans : List ListedChan) (c d : ListedChan)
    → get_elem? chans i ≡ some c
    → get_elem? chans j ≡ some d
    → AreDistinct chans
    → AreDistinct (set (set chans i d) j c)
AreDistinct-swap i j [] c d ec ed h = tt
AreDistinct-swap zero zero (b ∷ chans) c d ec ed h = rw (sym (some-injective b c ec)) h
AreDistinct-swap zero (suc j) (b ∷ chans) c d ec ed h =
    rw (sym (some-injective b c ec)) (swap_first j b chans d h ed)
AreDistinct-swap (suc i) zero (b ∷ chans) c d ec ed h =
    rw (sym (some-injective b d ed)) (swap_first i b chans c h ec)
AreDistinct-swap (suc i) (suc j) (b ∷ chans) c d ec ed h = (
  All-set (Differ b) j c (set chans i d) (All-get_elem? (Differ b) i chans c h.0 ec)
      (All-set (Differ b) i d chans (All-get_elem? (Differ b) j chans d h.0 ed) h.0),
  AreDistinct-swap i j chans c d ec ed h.1,
)
