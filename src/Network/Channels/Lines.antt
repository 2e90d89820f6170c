-- ===== src/Network/Channels/Lines.antt =====
-- What one `JOIN` message of `JoinChans` says.
use znc_playground.Network.Channels.Defs.{ListedChan}
use znc_playground.Network.Channels.Join.{
  JoinText, is_nil, comma_behind, chan_len, add_chan_text, fill,
}
use znc_playground.Prelude.{
  ℕ, ◌+◌, ◌≤◌, ◌≡◌, refl, sym, ap, ◌∙◌, Bool, false, not, ◌&&◌, ◌||◌, List, [], ◌∷◌, ◌++◌, map,
  append-nil, append_assoc, if◌then◌else◌, leb, All, All-append, Bytes, codes, arith, Bool-cases,
  inl, inr,
}

-- The texts with a comma between two of them
unfoldable pub commas : List Bytes → Bytes
commas [] = []
commas (s ∷ []) = s
commas (s ∷ t ∷ texts) = s ++ (codes "," ++ commas (t ∷ texts))

unfoldable pub any_key : List ListedChan → Bool
any_key [] = false
any_key (c ∷ chans) = not (is_nil c.key) || any_key chans

unfoldable pub total : List ListedChan → ℕ
total [] = 5
total (c ∷ chans) = chan_len c + total chans

-- The message for a group of channels: the names, and the keys in the same order if there are any
unfoldable pub join_text : List ListedChan → Bytes
unfolding commas any_key
join_text g =
    if any_key g
    then codes "JOIN "
      ++ (commas (map (λ c. c.name) g) ++ (codes " " ++ commas (map (λ c. c.key) g)))
    else codes "JOIN " ++ commas (map (λ c. c.name) g)

abbrev pub concat : List (List ListedChan) → List ListedChan
concat [] = []
concat (g ∷ gs) = g ++ concat gs

abbrev pub IsNamed : ListedChan → Type 0
IsNamed c = is_nil c.name ≡ false

-- A channel whose name and key are at most 251 bytes together
abbrev pub IsShort : ListedChan → Type 0
IsShort c = chan_len c ≤ 253

-- The state of the loop for the channels taken so far
unfoldable pub text_of : List ListedChan → JoinText
text_of g = record {
  keys = commas (map (λ c. c.key) g);
  names = commas (map (λ c. c.name) g);
  have_key = any_key g;
  len = total g;
}

commas-append :
    (s : Bytes) (texts : List Bytes) (t : Bytes)
    → commas ((s ∷ texts) ++ t ∷ []) ≡ (commas (s ∷ texts) ++ codes ",") ++ t
unfolding commas
commas-append s [] t = sym (append_assoc s (codes ",") t)
commas-append s (u ∷ texts) t =
    ap (λ r. s ++ (codes "," ++ r)) (commas-append u texts t) ∙ simp append_assoc

names_behind :
    (s : Bytes) (texts : List Bytes)
    → is_nil s ≡ false
    → comma_behind (commas (s ∷ texts)) ≡ codes ","
unfolding commas
names_behind [] texts h = ground arith
names_behind (x ∷ s) [] h = refl
names_behind (x ∷ s) (t ∷ texts) h = refl

any_key-append :
    (g : List ListedChan) (c : ListedChan)
    → any_key (g ++ c ∷ []) ≡ (any_key g || not (is_nil c.key))
unfolding any_key
any_key-append [] c = ground arith
any_key-append (d ∷ g) c = ground (arith, any_key-append g c)

total-append : (g : List ListedChan) (c : ListedChan) → total (g ++ c ∷ []) ≡ total g + chan_len c
unfolding total
total-append [] c = omega arith
total-append (d ∷ g) c = omega (arith, total-append g c)

map_append :
    (f : ListedChan → Bytes) (g : List ListedChan) (c : ListedChan)
    → map f (g ++ c ∷ []) ≡ map f g ++ f c ∷ []
map_append f [] c = refl
map_append f (d ∷ g) c = ap (◌∷◌ (f d)) (map_append f g c)

-- A channel that does not come first stands behind a comma, and so does its key.
text-append :
    (f : ListedChan → Bytes) (d : ListedChan) (g : List ListedChan) (c : ListedChan)
    → is_nil d.name ≡ false
    → (commas (map f (d ∷ g)) ++ comma_behind (commas (map (λ e. e.name) (d ∷ g)))) ++ f c
      ≡ commas (map f (d ∷ g ++ c ∷ []))
text-append f d g c h =
    ap (λ k. (commas (map f (d ∷ g)) ++ k) ++ f c) (names_behind d.name (map (λ e. e.name) g) h)
    ∙ sym (commas-append (f d) (map f g) (f c))
    ∙ ap (λ fs. commas (f d ∷ fs)) (sym (map_append f g c))

abbrev text_with : Bytes → Bytes → Bool → ℕ → JoinText
text_with keys names have_key len = record {
  keys = keys;
  names = names;
  have_key = have_key;
  len = len;
}

text_with-parts :
    {keys keys_b names names_b : Bytes} {have have_b : Bool} {len len_b : ℕ}
    → keys ≡ keys_b
    → names ≡ names_b
    → have ≡ have_b
    → len ≡ len_b
    → text_with keys names have len ≡ text_with keys_b names_b have_b len_b
text_with-parts k n h l = cc

pub add_chan_text-text_of :
    (g : List ListedChan) (c : ListedChan)
    → All IsNamed g
    → add_chan_text (text_of g) c ≡ text_of (g ++ c ∷ [])
unfolding add_chan_text text_of commas any_key total
add_chan_text-text_of [] c h = text_with-parts refl refl (ground arith) (omega arith)
add_chan_text-text_of (d ∷ g) c h =
    text_with-parts (text-append (λ e. e.key) d g c h.0) (text-append (λ e. e.name) d g c h.0)
      (sym (any_key-append (d ∷ g) c)) (sym (total-append (d ∷ g) c))

-- What the loop makes of the channels `chans` after the channels `d ∷ g`
pub record Filled (d : ListedChan) (g chans : List ListedChan) : Type 0 where
  pub taken : List ListedChan
  pub rest : List ListedChan
  pub whole : taken ++ rest ≡ chans
  pub text : fill (text_of (d ∷ g)) chans ≡ (text_of (d ∷ g ++ taken), rest)
  pub fits : IsShort d → All IsShort chans → total (d ∷ g) ≤ 511 → total (d ∷ g ++ taken) ≤ 511

nothing_taken :
    (d : ListedChan) (g chans : List ListedChan)
    → fill (text_of (d ∷ g)) chans ≡ (text_of (d ∷ g), chans)
    → Filled d g chans
nothing_taken d g chans e = record {
  taken = [];
  rest = chans;
  whole = refl;
  text = e ∙ ap (λ h. (text_of (d ∷ h), chans)) (sym (append-nil g));
  fits = λ hd hs h. rw (append-nil g) h;
}

-- With no key and no comma in `sKeys` there is at most one channel.
keys_behind :
    (d e : ListedChan) (g : List ListedChan)
    → is_nil (commas (map (λ c. c.key) (d ∷ e ∷ g))) ≡ false
unfolding commas
keys_behind d e g = comma_inside d.key
  where
    comma_inside :
        (s : Bytes) → is_nil (s ++ (codes "," ++ commas (map (λ c. c.key) (e ∷ g)))) ≡ false
    comma_inside [] = refl
    comma_inside (x ∷ s) = refl

abbrev is_full : List ListedChan → ListedChan → Bool
is_full g c = not (is_nil (commas (map (λ e. e.key) g))) && leb 512 (total g + chan_len c)

-- The channel that the loop takes leaves the message short.
taken_fits :
    (d : ListedChan) (g : List ListedChan) (c : ListedChan)
    → is_full (d ∷ g) c ≡ false
    → IsShort d
    → IsShort c
    → total (d ∷ g ++ c ∷ []) ≤ 511
unfolding total
taken_fits d [] c e hd hc = omega arith
taken_fits d (f ∷ g) c e hd hc = ground (arith, keys_behind d f g, total-append (d ∷ f ∷ g) c)

one_more :
    (d : ListedChan) (g : List ListedChan) (c : ListedChan) (chans : List ListedChan)
    → All IsNamed (d ∷ g)
    → is_full (d ∷ g) c ≡ false
    → Filled d (g ++ c ∷ []) chans
    → Filled d g (c ∷ chans)
unfolding fill text_of
one_more d g c chans h e f = record {
  taken = c ∷ f.taken;
  rest = f.rest;
  whole = ap (◌∷◌ c) f.whole;
  text = rw e (
      ap (λ t. fill t chans) (add_chan_text-text_of (d ∷ g) c h)
      ∙ f.text
      ∙ ap (λ u. (text_of (d ∷ u), f.rest)) (append_assoc g (c ∷ []) f.taken));
  fits = λ hd hs n.
      let short : total (d ∷ g ++ c ∷ [] ++ f.taken) ≤ 511 =
        f.fits hd hs.1 (taken_fits d g c e hd hs.0) in
      rw (sym (append_assoc g (c ∷ []) f.taken)) short;
}

pub fill-Filled :
    (d : ListedChan) (g chans : List ListedChan)
    → All IsNamed (d ∷ g)
    → All IsNamed chans
    → Filled d g chans
unfolding fill text_of
fill-Filled d g [] h k = nothing_taken d g [] refl
fill-Filled d g (c ∷ chans) h k = elim (Bool-cases (is_full (d ∷ g) c)) [
  | inl e ↦ nothing_taken d g (c ∷ chans) (rw e refl)
  | inr e ↦
      one_more d g c chans h e
        (fill-Filled d (g ++ c ∷ []) chans (All-append IsNamed (d ∷ g) c h k.0) k.1)
]
