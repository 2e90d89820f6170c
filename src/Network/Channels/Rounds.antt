-- ===== src/Network/Channels/Rounds.antt =====
-- The `JOIN` messages that `JoinChans` puts for a set of channels, and how long they are.
use znc_playground.Network.Channels.Defs.{ListedChan}
use znc_playground.Network.Channels.Join.{
  fill, empty_text, join_line, then_line, join_rounds, join_chans,
}
use znc_playground.Network.Channels.Lines.{
  commas, any_key, total, join_text, concat, IsNamed, IsShort, text_of, add_chan_text-text_of,
  Filled, fill-Filled,
}
use znc_playground.Prelude.{
  ℕ, zero, suc, ◌+◌, ◌≤◌, ◌≡◌, refl, ap, ◌∙◌, List, [], ◌∷◌, ◌++◌, map, some, length, length-append,
  All, Bytes, codes, arith, Bool-cases, inl, inr,
}

All-behind {κ} : (P : ListedChan → Type κ) (xs ys : List ListedChan) → All P (xs ++ ys) → All P ys
All-behind P [] ys h = h
All-behind P (x ∷ xs) ys h = All-behind P xs ys h.1

commas-total :
    (c : ListedChan) (g : List ListedChan)
    → length (commas (map (λ e. e.name) (c ∷ g))) + length (commas (map (λ e. e.key) (c ∷ g))) + 7
      ≡ total (c ∷ g)
unfolding commas total
commas-total c [] = omega arith
commas-total c (d ∷ g) =
    let names : List Bytes = map (λ e. e.name) (d ∷ g) in
    let keys : List Bytes = map (λ e. e.key) (d ∷ g) in
    omega (
      arith,
      commas-total d g,
      length-append c.name (codes "," ++ commas names),
      length-append c.key (codes "," ++ commas keys),
    )

length-join_text :
    (c : ListedChan) (g : List ListedChan) → length (join_text (c ∷ g)) + 1 ≤ total (c ∷ g)
unfolding join_text
length-join_text c g =
    let names : Bytes = commas (map (λ e. e.name) (c ∷ g)) in
    let keys : Bytes = commas (map (λ e. e.key) (c ∷ g)) in
    elim (Bool-cases (any_key (c ∷ g))) [
      | inl e ↦ rw e (omega (arith, commas-total c g, length-append names (codes " " ++ keys)))
      | inr e ↦ rw e (omega (arith, commas-total c g))
    ]

-- The messages for the channels, by groups
record Joined (fuel : ℕ) (chans : List ListedChan) : Type 0 where
  groups : List (List ListedChan)
  whole : concat groups ≡ chans
  nonempty : All (λ g. 1 ≤ length g) groups
  lines : join_rounds fuel chans ≡ some (map join_text groups)
  fits : All IsShort chans → All (λ g. length (join_text g) ≤ 510) groups

fill-first :
    (c : ListedChan) (chans : List ListedChan)
    → fill empty_text (c ∷ chans) ≡ fill (text_of (c ∷ [])) chans
unfolding fill text_of commas total any_key
fill-first c chans = ap (λ t. fill t chans) (add_chan_text-text_of [] c tt)

first_fits : (c : ListedChan) → IsShort c → total (c ∷ []) ≤ 511
unfolding total
first_fits c h = omega arith

join_line-text_of : (g : List ListedChan) → join_line (text_of g) ≡ join_text g
unfolding join_line text_of join_text
join_line-text_of g = refl

-- One message, and those behind it
round_Joined :
    (fuel : ℕ) (c : ListedChan) (chans : List ListedChan) (f : Filled c [] chans)
    → Joined fuel f.rest
    → Joined (suc fuel) (c ∷ chans)
unfolding join_rounds
round_Joined fuel c chans f later = record {
  groups = (c ∷ f.taken) ∷ later.groups;
  whole = ap (λ r. (c ∷ f.taken) ++ r) later.whole ∙ ap (◌∷◌ c) f.whole;
  nonempty = (omega arith, later.nonempty);
  lines =
      ap (λ r. then_line (join_line r.0) (join_rounds fuel r.1)) (fill-first c chans ∙ f.text)
      ∙ ap (λ line. then_line line (join_rounds fuel f.rest)) (join_line-text_of (c ∷ f.taken))
      ∙ ap (then_line (join_text (c ∷ f.taken))) later.lines;
  fits = λ short. (
    omega (arith, length-join_text c f.taken, f.fits short.0 short.1 (first_fits c short.0)),
    later.fits (All-behind IsShort f.taken f.rest (rw f.whole short.1)),
  );
}

rest_length :
    (c : ListedChan) (chans : List ListedChan) (f : Filled c [] chans)
    → length f.rest ≤ length chans
rest_length c chans f = omega (arith, length-append f.taken f.rest, ap length f.whole)

join_rounds-Joined :
    (fuel : ℕ) (chans : List ListedChan)
    → length chans ≤ fuel
    → All IsNamed chans
    → Joined fuel chans
unfolding join_rounds
join_rounds-Joined fuel [] n h = record {
  groups = [];
  whole = refl;
  nonempty = tt;
  lines = refl;
  fits = λ short. tt;
}
join_rounds-Joined zero (c ∷ chans) n h = absurd (omega arith)
join_rounds-Joined (suc fuel) (c ∷ chans) n h =
    let f : Filled c [] chans = fill-Filled c [] chans (h.0, tt) h.1 in
    round_Joined fuel c chans f (
      join_rounds-Joined fuel f.rest (omega (arith, rest_length c chans f))
        (All-behind IsNamed f.taken f.rest (rw f.whole h.1)))

-- If no name is empty, the loop of `JoinChans` ends. The messages are those of groups of channels, each
-- with a channel at least, that are, one behind the other, the channels in their order: the message
-- of a group has the names with a comma between two, then the keys in the same order if one of the
-- group has a key.
pub join_chans-groups :
    (chans : List ListedChan)
    → All IsNamed chans
    → (gs : List (List ListedChan)) × (concat gs ≡ chans)
      × All (λ g. 1 ≤ length g) gs
      × (join_chans chans ≡ some (map join_text gs))
unfolding join_chans
join_chans-groups chans h =
    let j : Joined (length chans) chans = join_rounds-Joined (length chans) chans (omega arith) h in
    (j.groups, j.whole, j.nonempty, j.lines)

All-map :
    (f : List ListedChan → Bytes) (gs : List (List ListedChan))
    → All (λ g. length (f g) ≤ 510) gs
    → All (λ line. length line ≤ 510) (map f gs)
All-map f [] h = tt
All-map f (g ∷ gs) h = (h.0, All-map f gs h.1)

-- If no name is empty and no channel has more than 251 bytes of name and key together, `JoinChans` puts
-- its messages, and each of them has 510 bytes at most.
pub length-join_chans :
    (chans : List ListedChan)
    → All IsNamed chans
    → All IsShort chans
    → (lines : List Bytes) × (join_chans chans ≡ some lines) × All (λ line. length line ≤ 510) lines
unfolding join_chans
length-join_chans chans h short =
    let j : Joined (length chans) chans = join_rounds-Joined (length chans) chans (omega arith) h in
    (map join_text j.groups, j.lines, All-map join_text j.groups (j.fits short))
