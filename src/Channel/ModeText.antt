-- ===== src/Channel/ModeText.antt =====
-- The overloads of `ModeChange` and `SetModes` for one text, with the arguments of the modes behind
-- the mode characters.
use znc_playground.Channel.Defs.{
  ModeTable, Chan, letter_of, mode_letters, mode_args, get_mode_string, spaced,
}
use znc_playground.Channel.Modes.{ModeState, mode_change, set_modes}
use znc_playground.Channel.Restore.{IsSettable, set_modes-mode_letters}
use znc_playground.Prelude.{
  ℕ, zero, suc, ◌≤◌, ◌≡◌, ◌≢◌, refl, ap, ap₂, ◌∙◌, Bool, true, false, List, [], ◌∷◌, ◌++◌,
  append-nil, if◌then◌else◌, ◌==◌, length, length-append, All, Bytes, codes, arith,
}
use znc_playground.StringMap.{StringMap, IsSorted}
use znc_playground.Text.Compare.{trim_prefix, starts_with, left, insensitive}
use znc_playground.Text.Compare.Prefix.{trim_prefix-absent}
use znc_playground.Text.Split.{Lacks}
use znc_playground.Text.Token.{
  token, Starts, token-first, token-only, token-rest, token-next, token-last,
}

-- `Token(0)` and `Token(1, true)`
abbrev first_word : Bytes → Bytes
first_word s = token 0 false (codes " ") false s

abbrev other_words : Bytes → Bytes
other_words s = token 1 true (codes " ") false s

-- The loop over `sArgs`; behind a colon the rest is one parameter. Every round takes a byte.
unfoldable pub mode_params : ℕ → Bytes → List Bytes
unfolding token trim_prefix
mode_params zero s = []
mode_params (suc fuel) [] = []
mode_params (suc fuel) (c ∷ s) =
    let rest = mode_params fuel (other_words (c ∷ s)) in
    let trimmed = trim_prefix (codes ":") (c ∷ s) in
    if trimmed.1 then trimmed.0 ∷ [] else first_word (c ∷ s) ∷ rest

-- Only a mode string without a colon has parameters.
unfoldable pub params_behind : Bool → Bytes → List Bytes
unfolding mode_params
params_behind true s = []
params_behind false s = let args = other_words s in mode_params (length args) args

unfoldable pub mode_change_text : ModeTable → Bytes → Chan → Bytes → ModeState
unfolding params_behind mode_change
mode_change_text t cur ch s =
    let (modes, colon) = trim_prefix (codes ":") (first_word s) in
    mode_change t cur ch modes (params_behind colon s)

unfoldable pub set_modes_text : ModeTable → Bytes → Chan → Bytes → ModeState
unfolding mode_change_text
set_modes_text t cur ch s = mode_change_text t cur (record ch { modes = [] }) s

-- An argument that is one word and no trailing parameter
abbrev pub IsArg : Bytes → Type 0
IsArg s = Lacks b' ' s × (s ≢ []) × Starts b':' s

real_space : ◌≢◌ {A = ℕ} b' ' 0
real_space = omega arith

no_colon : (c : ℕ) (s : Bytes) → c ≢ b':' → starts_with insensitive (c ∷ s) (codes ":") ≡ false
unfolding starts_with left
no_colon c s h = ground arith

-- The parameters of a list of arguments, each with a space in front
abbrev joined : List Bytes → Bytes
joined [] = []
joined (arg ∷ args) = arg ++ spaced args

joined-Starts : (args : List Bytes) → All IsArg args → Starts b' ' (joined args)
joined-Starts [] h = tt
joined-Starts ([] ∷ args) h = absurd (h.0.1 refl)
joined-Starts ((c ∷ arg) ∷ args) h = h.0.0.0

first_word-spaced :
    (w : Bytes) (args : List Bytes) → Lacks b' ' w → w ≢ [] → first_word (w ++ spaced args) ≡ w
first_word-spaced w [] h n = ap first_word (append-nil w) ∙ token-only b' ' real_space w h
first_word-spaced w (arg ∷ args) h n = token-first b' ' real_space w (joined (arg ∷ args)) h n

other_words-spaced :
    (w : Bytes) (args : List Bytes)
    → Lacks b' ' w
    → w ≢ []
    → All IsArg args
    → other_words (w ++ spaced args) ≡ joined args
other_words-spaced w [] h n k =
    ap other_words (append-nil w) ∙ token-last b' ' real_space 0 true w h
other_words-spaced w (arg ∷ args) h n k =
    token-next b' ' real_space 0 true w (joined (arg ∷ args)) h n (joined-Starts (arg ∷ args) k)
    ∙ token-rest b' ' real_space (joined (arg ∷ args)) (joined-Starts (arg ∷ args) k)

-- Every argument takes a byte at least.
length-joined-le :
    (arg : Bytes) (args : List Bytes) (fuel : ℕ)
    → arg ≢ []
    → length (arg ++ spaced args) ≤ suc fuel
    → length (joined args) ≤ fuel
length-joined-le arg [] fuel n h = omega arith
length-joined-le [] (a ∷ args) fuel n h = absurd (n refl)
length-joined-le (c ∷ arg) (a ∷ args) fuel n h =
    omega (arith, length-append arg (b' ' ∷ joined (a ∷ args)))

mode_params-joined :
    (fuel : ℕ) (args : List Bytes)
    → All IsArg args
    → length (joined args) ≤ fuel
    → mode_params fuel (joined args) ≡ args
unfolding mode_params
mode_params-joined zero [] h k = refl
mode_params-joined (suc fuel) [] h k = refl
mode_params-joined fuel ([] ∷ args) h k = absurd (h.0.1 refl)
mode_params-joined zero ((c ∷ arg) ∷ args) h k = absurd (omega arith)
mode_params-joined (suc fuel) ((c ∷ arg) ∷ args) h k =
    ap
      (λ (r : Bytes × Bool).
        if r.1
        then r.0 ∷ []
        else first_word ((c ∷ arg) ++ spaced args)
          ∷ mode_params fuel (other_words ((c ∷ arg) ++ spaced args)))
      (trim_prefix-absent (codes ":") ((c ∷ arg) ++ spaced args)
        (no_colon c (arg ++ spaced args) h.0.2))
    ∙ ap₂ (λ w ws. w ∷ ws) (first_word-spaced (c ∷ arg) args h.0.0 (λ e. cc))
        (ap (mode_params fuel) (other_words-spaced (c ∷ arg) args h.0.0 (λ e. cc) h.1)
          ∙ mode_params-joined fuel args h.1 (length-joined-le (c ∷ arg) args fuel (λ e. cc) k))

module _ (t : ModeTable) (cur : Bytes) where
  -- A word of modes and its arguments
  mode_change_text-spaced :
      (ch : Chan) (c : ℕ) (w : Bytes) (args : List Bytes)
      → Lacks b' ' (c ∷ w)
      → c ≢ b':'
      → All IsArg args
      → mode_change_text t cur ch (c ∷ w ++ spaced args) ≡ mode_change t cur ch (c ∷ w) args
  unfolding mode_change_text
  mode_change_text-spaced ch c w args h n k =
      ap (λ (r : Bytes × Bool). mode_change t cur ch r.0 (params_behind r.1 (c ∷ w ++ spaced args)))
        (ap (trim_prefix (codes ":")) (first_word-spaced (c ∷ w) args h (λ e. cc))
          ∙ trim_prefix-absent (codes ":") (c ∷ w) (no_colon c w n))
      ∙ ap (mode_change t cur ch (c ∷ w)) (
          ap (λ ws. mode_params (length ws) ws) (other_words-spaced (c ∷ w) args h (λ e. cc) k)
          ∙ mode_params-joined (length (joined args)) args k (omega arith))

  -- A mode that stands in a text: no space, and an argument that is one word, if any
  abbrev pub IsWritten : Bytes × Bytes → Type 0
  IsWritten (k, []) = letter_of k ≢ b' '
  IsWritten (k, c ∷ arg) = (letter_of k ≢ b' ') × IsArg (c ∷ arg)

  mode_letters-Lacks : (m : StringMap Bytes) → All IsWritten m → Lacks b' ' (mode_letters m)
  mode_letters-Lacks [] h = tt
  mode_letters-Lacks ((k, []) ∷ m) h = (h.0, mode_letters-Lacks m h.1)
  mode_letters-Lacks ((k, c ∷ arg) ∷ m) h = (h.0.0, mode_letters-Lacks m h.1)

  mode_args-IsArg : (m : StringMap Bytes) → All IsWritten m → All IsArg (mode_args m)
  mode_args-IsArg [] h = tt
  mode_args-IsArg ((k, []) ∷ m) h = mode_args-IsArg m h.1
  mode_args-IsArg ((k, c ∷ arg) ∷ m) h = (h.0.1, mode_args-IsArg m h.1)

  -- The text of a map of modes
  abbrev mode_text : StringMap Bytes → Bytes
  mode_text m = if length m == 0 then [] else b'+' ∷ mode_letters m ++ spaced (mode_args m)

  mode_text-cons :
      (e : Bytes × Bytes) (m : StringMap Bytes)
      → mode_text (e ∷ m) ≡ b'+' ∷ mode_letters (e ∷ m) ++ spaced (mode_args (e ∷ m))
  mode_text-cons e m = ground arith

  set_modes_text-mode_text :
      (ch : Chan) (m : StringMap Bytes)
      → All IsWritten m
      → All (IsSettable t) m
      → IsSorted m
      → (set_modes_text t cur ch (mode_text m)).chan.modes ≡ m
  unfolding set_modes_text set_modes
  set_modes_text-mode_text ch [] h ok sorted = refl
  set_modes_text-mode_text ch ((k, arg) ∷ m) h ok sorted =
      let all = (k, arg) ∷ m in
      ap (λ s. (mode_change_text t cur (record ch { modes = [] }) s).chan.modes)
        (mode_text-cons (k, arg) m)
      ∙ ap (λ (r : ModeState). r.chan.modes)
          (mode_change_text-spaced (record ch { modes = [] }) b'+' (mode_letters all)
            (mode_args all) (omega arith, mode_letters-Lacks all h) (omega arith)
            (mode_args-IsArg all h))
      ∙ set_modes-mode_letters t cur (record ch { modes = all }) ok sorted

  -- A channel whose modes `ModeChange` can set, in the order of their keys, none of them a space, and
  -- each with no argument or with an argument of one word that does not begin with a colon, gets the
  -- same modes when `SetModes` reads the text that `GetModeString` shows.
  pub set_modes_text-get_mode_string :
      (ch : Chan)
      → All IsWritten ch.modes
      → All (IsSettable t) ch.modes
      → IsSorted ch.modes
      → (set_modes_text t cur ch (get_mode_string ch)).chan.modes ≡ ch.modes
  unfolding get_mode_string
  set_modes_text-get_mode_string ch h ok sorted = set_modes_text-mode_text ch ch.modes h ok sorted
