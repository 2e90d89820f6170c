-- ===== src/IrcSock/Caps/Requests.antt =====
-- What `SendNextCap` asks for, and how long its lines are.
use znc_playground.IrcSock.Caps.Defs.{StringSet, is_in, fill_caps}
use znc_playground.Prelude.{
  ◌+◌, ◌≤◌, ◌≡◌, ◌⊎◌, inl, inr, Bool-cases, refl, sym, ap, ◌∙◌, Bool, false, ◌||◌, List, [], ◌∷◌,
  ◌++◌, append_assoc, append-nil, ltb, length, length-append, Bytes, bytes_eq, arith,
}
use znc_playground.StringMap.{find}
use znc_playground.Text.SplitBy.Spaced.{behind_spaces}

abbrev pub mem_bytes : Bytes → List Bytes → Bool
mem_bytes c [] = false
mem_bytes c (d ∷ ds) = bytes_eq d c || mem_bytes c ds

abbrev pub entries : List Bytes → StringSet
entries [] = []
entries (c ∷ cs) = (c, tt) ∷ entries cs

-- The loop takes `taken` from the set and joins them.
pub record Filled (caps : Bytes) (m : StringSet) : Type 0 where
  pub taken : List Bytes
  pub left : StringSet
  pub whole : m ≡ entries taken ++ left
  pub joined : fill_caps caps m ≡ (caps ++ behind_spaces taken, left)
  pub short : (taken ≡ []) ⊎ (length (caps ++ behind_spaces taken) ≤ 99)

abbrev no_bytes : Bytes
no_bytes = []

one_more_short :
    (caps name : Bytes) (taken : List Bytes)
    → ltb 98 (length caps + length name) ≡ false
    → (taken ≡ []) ⊎ (length ((caps ++ (b' ' ∷ name)) ++ behind_spaces taken) ≤ 99)
    → length (caps ++ behind_spaces (name ∷ taken)) ≤ 99
one_more_short caps name [] e h =
    ground (arith, length-append caps (b' ' ∷ name ++ no_bytes), length-append name no_bytes)
one_more_short caps name (d ∷ taken) e (inl n) = absurd (ground arith)
one_more_short caps name (d ∷ taken) e (inr h) =
    rw (sym (append_assoc caps (b' ' ∷ name) (behind_spaces (d ∷ taken)))) h

pub fill_caps-Filled : (caps : Bytes) (m : StringSet) → Filled caps m
unfolding fill_caps
fill_caps-Filled caps [] = record {
  taken = [];
  left = [];
  whole = refl;
  joined = ap (λ c. (c, [])) (sym (append-nil caps));
  short = inl refl;
}
fill_caps-Filled caps ((name, u) ∷ rest) =
    let later : Filled (caps ++ (b' ' ∷ name)) rest =
      fill_caps-Filled (caps ++ (b' ' ∷ name)) rest in
    elim (Bool-cases (ltb 98 (length caps + length name))) [
      | inl e ↦ record {
        taken = [];
        left = (name, u) ∷ rest;
        whole = refl;
        joined = rw e (ap (λ c. (c, (name, u) ∷ rest)) (sym (append-nil caps)));
        short = inl refl;
      }
      | inr e ↦ record {
        taken = name ∷ later.taken;
        left = later.left;
        whole = ap (◌∷◌ (name, u)) later.whole;
        joined = rw e (
            later.joined
            ∙ ap (λ c. (c, later.left))
                (append_assoc caps (b' ' ∷ name) (behind_spaces later.taken)));
        short = inr (one_more_short caps name later.taken e later.short);
      }
    ]

pub is_in-entries :
    (c : Bytes) (taken : List Bytes) (left : StringSet)
    → is_in c (entries taken ++ left) ≡ (mem_bytes c taken || is_in c left)
unfolding find
is_in-entries c [] left = refl
is_in-entries c (d ∷ taken) left = ground (arith, is_in-entries c taken left)

pub length-entries :
    (taken : List Bytes) (left : StringSet)
    → length (entries taken ++ left) ≡ length taken + length left
length-entries [] left = omega arith
length-entries (d ∷ taken) left = omega (arith, length-entries taken left)
