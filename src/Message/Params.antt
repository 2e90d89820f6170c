-- ===== src/Message/Params.antt =====
-- The parameters of a line: what `GetParamsColon` writes and `Parse` reads back.
use mathlib.Core.Option
use znc_playground.Message.Defs.{Message}
use znc_playground.Message.Parse.{next_word, parse_params}
use znc_playground.Message.Print.{
  is_empty, wants_colon, shown_param, shown_params, clamped_len, get_params_colon, uint_mod,
}
use znc_playground.Message.Words.{NoSpace, next_word-append, next_word-all}
use znc_playground.Prelude.{
  ℕ, zero, suc, ◌+◌, ◌-◌, ◌<◌, ◌≤◌, ◌≡◌, ◌≢◌, refl, ap, sym, ◌∙◌, Bool, true, false, ◌||◌, List, [],
  ◌∷◌, ◌++◌, ◌==◌, some, arith, if◌then◌else◌, Bytes, codes, length, get_elem?, take, if_elim, ◌%◌,
  append_assoc, append-nil, length-append,
}
use znc_playground.Nick.Mask.{NoColon}
use znc_playground.Text.Compare.{has_substring, as_lower, join, starts_with, insensitive, contains}
use znc_playground.Text.Ctype.{to_lower}
use znc_playground.Text.Split.{Lacks}

-- A parameter that needs no colon
pub record IsMiddle (p : Bytes) : Type 0 where
  pub some_byte : p ≢ []
  pub no_colon : NoColon p
  pub no_space : Lacks b' ' p

Lacks-has_substring : (s : Bytes) → has_substring (codes " ") (as_lower s) ≡ false → Lacks b' ' s
unfolding has_substring to_lower
Lacks-has_substring [] h = tt
Lacks-has_substring (c ∷ s) h = (ground arith, Lacks-has_substring s (ground arith))

NoColon-starts_with : (s : Bytes) → starts_with insensitive s (codes ":") ≡ false → NoColon s
unfolding starts_with
NoColon-starts_with [] h = tt
NoColon-starts_with (c ∷ s) h = ground arith

-- A last parameter that is written with no colon needs none.
wants_colon→IsMiddle : (p : Bytes) → wants_colon false p ≡ false → IsMiddle p
unfolding wants_colon contains is_empty
wants_colon→IsMiddle p h = record {
  some_byte = ground arith;
  no_colon = NoColon-starts_with p (ground arith);
  no_space = Lacks-has_substring p (ground arith);
}

-- Parameters that a line can carry: all but the last need no colon, and the last has one exactly if
-- the flag says so.
abbrev pub AreParams : Bool → List Bytes → Type 0
AreParams colon [] = colon ≡ false
AreParams colon (p ∷ []) = wants_colon colon p ≡ colon
AreParams colon (p ∷ q ∷ ps) = IsMiddle p × AreParams colon (q ∷ ps)

abbrev pub params_text : Bool → List Bytes → Bytes
params_text colon [] = []
params_text colon (p ∷ []) = if colon then b':' ∷ p else p
params_text colon (p ∷ q ∷ ps) = p ++ b' ' ∷ params_text colon (q ∷ ps)

IsMiddle-NoSpace : (p s : Bytes) → IsMiddle p → NoSpace (p ++ s)
IsMiddle-NoSpace [] s h = absurd (h.some_byte refl)
IsMiddle-NoSpace (c ∷ p) s h = h.no_space.0

pub NoSpace-params :
    (colon : Bool) (ps : List Bytes) → AreParams colon ps → NoSpace (params_text colon ps)
NoSpace-params colon [] h = tt
NoSpace-params true (p ∷ []) h = omega arith
NoSpace-params false (p ∷ []) h =
    rw append-nil at (IsMiddle-NoSpace p [] (wants_colon→IsMiddle p h))
NoSpace-params colon (p ∷ q ∷ ps) h = IsMiddle-NoSpace p _ h.0

-- A round of the loop at a word
parse_params_word :
    (f : ℕ) (p s rest : Bytes)
    → IsMiddle p
    → next_word (p ++ s) ≡ (p, rest)
    → parse_params (suc f) (p ++ s) ≡ (p ∷ (parse_params f rest).0, (parse_params f rest).1)
unfolding parse_params
parse_params_word f [] s rest h e = absurd (h.some_byte refl)
parse_params_word f (c ∷ p) s rest h e = let n = h.no_colon in ground (arith, e)

pub parse_params-text :
    (f : ℕ) (colon : Bool) (ps : List Bytes)
    → AreParams colon ps
    → length (params_text colon ps) ≤ f
    → parse_params f (params_text colon ps) ≡ (ps, colon)
unfolding parse_params
parse_params-text f colon [] h n = rw h refl
parse_params-text zero true (p ∷ []) h n = absurd (omega arith)
parse_params-text (suc f) true (p ∷ []) h n = refl
parse_params-text zero false ([] ∷ []) h n = absurd ((wants_colon→IsMiddle [] h).some_byte refl)
parse_params-text zero false ((c ∷ p) ∷ []) h n = absurd (omega arith)
parse_params-text (suc f) false (p ∷ []) h n =
    let m = wants_colon→IsMiddle p h in
    rw append-nil at (parse_params_word f p [] [] m (rw append-nil (next_word-all p m.no_space)))
parse_params-text zero colon (p ∷ q ∷ ps) h n =
    absurd (omega (arith, length-append p (b' ' ∷ params_text colon (q ∷ ps))))
parse_params-text (suc f) colon (p ∷ q ∷ ps) h n =
    let rest = params_text colon (q ∷ ps) in
    parse_params_word f p (b' ' ∷ rest) rest h.0
      (next_word-append p rest h.0.no_space (NoSpace-params colon (q ∷ ps) h.1))
    ∙ rw (parse_params-text f colon (q ∷ ps) h.1 (omega (arith, length-append p (b' ' ∷ rest))))

-- What the loop of `GetParamsColon` collects
abbrev pub shown : Bool → List Bytes → List Bytes
shown colon [] = []
shown colon (p ∷ []) = (if wants_colon colon p then b':' ∷ p else p) ∷ []
shown colon (p ∷ q ∷ ps) = p ∷ shown colon (q ∷ ps)

get_elem?-append {ℓ} :
    {A : Type ℓ} (xs : List A) (y : A) (ys : List A) → get_elem? (xs ++ y ∷ ys) (length xs) ≡ some y
get_elem?-append [] y ys = refl
get_elem?-append (x ∷ xs) y ys = get_elem?-append xs y ys

shown_param_middle :
    (m : Message) (i : ℕ) (p : Bytes) → i + 1 < length m.params → shown_param m i p ≡ p
unfolding shown_param
shown_param_middle m i p h = ground arith

shown_params_step :
    (m : Message) (n i : ℕ) (p : Bytes) (ps : List Bytes)
    → get_elem? m.params i ≡ some p
    → shown_params m n (i + 1) ≡ some ps
    → shown_params m (suc n) i ≡ some (shown_param m i p ∷ ps)
unfolding shown_params
shown_params_step m n i p ps e r = ground arith

pub shown_params-shown :
    (m : Message) (k : ℕ) (before after : List Bytes)
    → m.params ≡ before ++ after
    → k ≤ length after
    → shown_params m k (length before) ≡ some (take k (shown m.colon after))
shown_params-shown m zero before after e h = unfold shown_params in refl
shown_params-shown m (suc k) before [] e h = absurd (omega arith)
shown_params-shown m (suc zero) before (p ∷ []) e h =
    shown_params_step m 0 (length before) p []
      (ap (λ ps. get_elem? ps (length before)) e ∙ get_elem?-append before p [])
      (unfold shown_params in refl)
    ∙ ap (λ t. some (t ∷ [])) last
  where
    last : shown_param m (length before) p ≡ (if wants_colon m.colon p then b':' ∷ p else p)
    last = unfold shown_param in ground (arith, ap length e, length-append before (p ∷ []))
shown_params-shown m (suc (suc k)) before (p ∷ []) e h = absurd (omega arith)
shown_params-shown m (suc k) before (p ∷ q ∷ ps) e h =
    shown_params_step m k (length before) p (take k (shown m.colon (q ∷ ps)))
      (ap (λ ps. get_elem? ps (length before)) e ∙ get_elem?-append before p (q ∷ ps))
      (ap (λ i. shown_params m k i) (sym next_index)
        ∙ shown_params-shown m k (before ++ p ∷ []) (q ∷ ps)
            (e ∙ sym (append_assoc before (p ∷ []) (q ∷ ps))) (omega arith))
    ∙ ap (λ t. some (t ∷ take k (shown m.colon (q ∷ ps))))
        (shown_param_middle m (length before) p
          (omega (arith, ap length e, length-append before (p ∷ q ∷ ps))))
  where
    next_index : length (before ++ p ∷ []) ≡ length before + 1
    next_index = omega (arith, length-append before (p ∷ []))

pub length-shown : (colon : Bool) (ps : List Bytes) → length (shown colon ps) ≡ length ps
length-shown colon [] = refl
length-shown colon (p ∷ []) = refl
length-shown colon (p ∷ q ∷ ps) = ap suc (length-shown colon (q ∷ ps))

pub take_all : (k : ℕ) (ps : List Bytes) → length ps ≤ k → take k ps ≡ ps
take_all zero [] h = refl
take_all (suc k) [] h = refl
take_all zero (p ∷ ps) h = absurd (omega arith)
take_all (suc k) (p ∷ ps) h = ap (◌∷◌ p) (take_all k ps (omega arith))

shown-text :
    (colon : Bool) (ps : List Bytes)
    → AreParams colon ps
    → join (codes " ") (shown colon ps) ≡ params_text colon ps
unfolding join
shown-text colon [] h = refl
shown-text true (p ∷ []) h = ground arith
shown-text false (p ∷ []) h = ground arith
shown-text colon (p ∷ q ∷ []) h = ap (λ t. p ++ b' ' ∷ t) (shown-text colon (q ∷ []) h.1)
shown-text colon (p ∷ q ∷ r ∷ ps) h = ap (λ t. p ++ b' ' ∷ t) (shown-text colon (q ∷ r ∷ ps) h.1)

clamped_len_all : (n : ℕ) → 0 < n → n < uint_mod → clamped_len n 0 (uint_mod - 1) ≡ n
unfolding clamped_len
clamped_len_all n h k = ground arith

-- All parameters, as `ToString` asks for them
pub get_params_colon_all :
    (m : Message)
    → m.params ≢ []
    → length m.params < uint_mod
    → AreParams m.colon m.params
    → get_params_colon m 0 (uint_mod - 1) ≡ some (params_text m.colon m.params)
unfolding get_params_colon
get_params_colon_all m n k h =
    if_elim (λ t. t ≡ some (params_text m.colon m.params))
      (length m.params == 0 || uint_mod - 1 == 0) _ _
      (λ e. absurd (n (nil_of_length m.params (ground arith))))
      (λ e. rw count (
        ap (Option.map (join (codes " "))) (
          shown_params-shown m (length m.params) [] m.params refl (omega arith)
          ∙ ap some (
              take_all (length m.params) (shown m.colon m.params)
                (omega (arith, length-shown m.colon m.params))))
        ∙ ap some (shown-text m.colon m.params h)))
  where
    nil_of_length : (ps : List Bytes) → length ps ≡ 0 → ps ≡ []
    nil_of_length [] h = refl
    nil_of_length (p ∷ ps) h = absurd (omega arith)

    positive : (ps : List Bytes) → ps ≢ [] → 0 < length ps
    positive [] h = absurd (h refl)
    positive (p ∷ ps) h = omega arith

    count : (0 + clamped_len (length m.params) 0 (uint_mod - 1)) % uint_mod - 0 ≡ length m.params
    count = omega (arith, clamped_len_all (length m.params) (positive m.params n) k)
