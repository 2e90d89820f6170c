-- ===== src/Text/Wild/Relation.antt =====
-- What a wildcard means: `*` stands for any text, `?` for any one byte, any other byte for itself.
use znc_playground.Prelude.{ℕ, ◌≡◌, ◌≢◌, refl, ◌⊎◌, inl, inr, true, [], ◌∷◌, arith, Bytes}
use znc_playground.Text.Wild.Search.{fits, only_stars}

abbrev pub star : ℕ
star = b'*'

pub data Matches : Bytes → Bytes → Type 0 where
  done : Matches [] []
  byte :
      {w c : ℕ} {ws s : Bytes}
      → w ≢ star
      → fits w c ≡ true
      → Matches ws s
      → Matches (w ∷ ws) (c ∷ s)
  skip : {w : ℕ} {ws s : Bytes} → w ≡ star → Matches ws s → Matches (w ∷ ws) s
  grow : {w c : ℕ} {ws s : Bytes} → w ≡ star → Matches (w ∷ ws) s → Matches (w ∷ ws) (c ∷ s)

-- At a byte other than the star, both texts lose their first byte.
pub Matches-byte :
    {w c : ℕ} {ws s : Bytes}
    → w ≢ star
    → Matches (w ∷ ws) (c ∷ s)
    → (fits w c ≡ true) × Matches ws s
Matches-byte n (byte _ h d) = (h, d)
Matches-byte n (skip e d) = absurd (n e)
Matches-byte n (grow e d) = absurd (n e)

module _ {ws : Bytes} where
  pub star_split :
      {c : ℕ} {s : Bytes} → Matches (star ∷ ws) (c ∷ s) → Matches ws (c ∷ s) ⊎ Matches (star ∷ ws) s
  star_split (byte n _ d) = absurd (n refl)
  star_split (skip e d) = inl d
  star_split (grow e d) = inr d

  pub star_at_end : Matches (star ∷ ws) [] → Matches ws []
  star_at_end (skip e d) = d

  pub star-star : {s : Bytes} → Matches (star ∷ star ∷ ws) s → Matches (star ∷ ws) s
  star-star (byte n _ d) = absurd (n refl)
  star-star (skip e d) = d
  star-star (grow e d) = grow refl (star-star d)

  -- A match behind a star that begins with a byte: what is left matches behind the star too.
  pub star-drop_byte :
      {w c : ℕ} (s : Bytes) → w ≢ star → Matches (star ∷ w ∷ ws) (c ∷ s) → Matches (star ∷ ws) s
  star-drop_byte s n (byte m _ d) = absurd (m refl)
  star-drop_byte s n (skip e d) = skip refl (Matches-byte n d).1
  star-drop_byte [] n (grow e (skip e' d)) = absurd (no_end n d)
    where
      no_end : {w : ℕ} → w ≢ star → Matches (w ∷ ws) [] → ⊥
      no_end n (skip e d) = n e
  star-drop_byte (c ∷ s) n (grow e d) = grow refl (star-drop_byte s n d)

pub star_all : (s : Bytes) → Matches (star ∷ []) s
star_all [] = skip refl done
star_all (c ∷ s) = grow refl (star_all s)

pub Matches-nil : {ws : Bytes} → Matches ws [] → only_stars ws ≡ true
unfolding only_stars
Matches-nil done = refl
Matches-nil (skip e d) = ground (arith, Matches-nil d)

pub only_stars→Matches : (ws : Bytes) → only_stars ws ≡ true → Matches ws []
unfolding only_stars
only_stars→Matches [] h = done
only_stars→Matches (w ∷ ws) h = skip (ground arith) (only_stars→Matches ws (ground arith))
