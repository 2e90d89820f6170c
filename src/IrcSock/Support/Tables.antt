-- ===== src/IrcSock/Support/Tables.antt =====
-- What the tables of modes answer.
use znc_playground.Channel.{ModeTable, ModeArgs}
use znc_playground.Channel.Defs.{type_in}
use znc_playground.IrcSock.Support.Defs.{
  args_of, set_type, set_types, mode_group, chan_modes_of, is_nil, set_prefix,
}
use znc_playground.Prelude.{
  ℕ, suc, ◌≡◌, ◌≢◌, refl, ◌∙◌, true, false, List, [], ◌∷◌, ◌++◌, ◌==◌, if◌then◌else◌, length, Bytes,
  codes, arith,
}
use znc_playground.Text.Split.{Lacks}
use znc_playground.Text.Token.{token, Starts, token-first, token-only, token-next}
use znc_playground.Text.Trim.{contains_char, trim_left}

type_in-set_type :
    (c d : ℕ) (a : ModeArgs) (modes : List (ℕ × ModeArgs))
    → type_in d (set_type c a modes) ≡ (if c == d then a else type_in d modes)
unfolding type_in set_type
type_in-set_type c d a [] = refl
type_in-set_type c d a ((e, b) ∷ modes) = ground (arith, type_in-set_type c d a modes)

type_in-set_types :
    (cs : Bytes) (d : ℕ) (a : ModeArgs) (modes : List (ℕ × ModeArgs))
    → type_in d (set_types cs a modes) ≡ (if contains_char cs d then a else type_in d modes)
unfolding set_types contains_char
type_in-set_types [] d a modes = refl
type_in-set_types (c ∷ cs) d a modes =
    ground (arith, type_in-set_types cs d a (set_type c a modes), type_in-set_type c d a modes)

-- Four groups of modes, none empty and none with a comma
abbrev pub AreGroups : Bytes → Bytes → Bytes → Bytes → Type 0
AreGroups a b c d =
    ((a ≢ []) × Lacks b',' a)
    × ((b ≢ []) × Lacks b',' b)
    × ((c ≢ []) × Lacks b',' c)
    × ((d ≢ []) × Lacks b',' d)

abbrev pub groups_text : Bytes → Bytes → Bytes → Bytes → Bytes
groups_text a b c d = a ++ (b',' ∷ (b ++ (b',' ∷ (c ++ (b',' ∷ d)))))

Starts-group : (a rest : Bytes) → a ≢ [] → Lacks b',' a → Starts b',' (a ++ rest)
Starts-group [] rest n h = absurd (n refl)
Starts-group (x ∷ a) rest n h = h.0

-- Each mode has the type of the last group that it stands in.
abbrev pub type_of : Bytes → Bytes → Bytes → Bytes → ℕ → ModeArgs
type_of a b c d mode =
    if contains_char d mode
    then ModeArgs.no_arg
    else if contains_char c mode
    then ModeArgs.arg_when_set
    else if contains_char b mode
    then ModeArgs.has_arg
    else if contains_char a mode
    then ModeArgs.list_arg
    else ModeArgs.no_arg

Starts-word : (w : Bytes) → Lacks b',' w → Starts b',' w
Starts-word [] h = tt
Starts-word (x ∷ w) h = h.0

comma : ◌≢◌ {A = ℕ} b',' 0
comma = omega arith

abbrev four_types : Bytes → Bytes → Bytes → Bytes → List (ℕ × ModeArgs)
four_types a b c d =
    set_types d (args_of 3)
      (set_types c (args_of 2) (set_types b (args_of 1) (set_types a (args_of 0) [])))

type_in-four_types :
    (a b c d : Bytes) (mode : ℕ) → type_in mode (four_types a b c d) ≡ type_of a b c d mode
unfolding type_in
type_in-four_types a b c d mode =
    let ta = set_types a (args_of 0) [] in
    let tb = set_types b (args_of 1) ta in
    let tc = set_types c (args_of 2) tb in
    rw (type_in-set_types d mode (args_of 3) tc) (
      rw (type_in-set_types c mode (args_of 2) tb) (
        rw (type_in-set_types b mode (args_of 1) ta)
          (rw (type_in-set_types a mode (args_of 0) []) refl)))

module _ (a b c d : Bytes) (h : AreGroups a b c d) where
  past_a :
      (pos : ℕ)
      → token (suc pos) false (codes ",") false (groups_text a b c d)
        ≡ token pos false (codes ",") false (b ++ (b',' ∷ (c ++ (b',' ∷ d))))
  past_a pos =
      token-next b',' comma pos false a (b ++ (b',' ∷ (c ++ (b',' ∷ d)))) h.0.1 h.0.0
        (Starts-group b (b',' ∷ (c ++ (b',' ∷ d))) h.1.0 h.1.1)

  past_b :
      (pos : ℕ)
      → token (suc pos) false (codes ",") false (b ++ (b',' ∷ (c ++ (b',' ∷ d))))
        ≡ token pos false (codes ",") false (c ++ (b',' ∷ d))
  past_b pos =
      token-next b',' comma pos false b (c ++ (b',' ∷ d)) h.1.1 h.1.0
        (Starts-group c (b',' ∷ d) h.2.0 h.2.1)

  past_c : token 1 false (codes ",") false (c ++ (b',' ∷ d)) ≡ token 0 false (codes ",") false d
  past_c = token-next b',' comma 0 false c d h.2.1 h.2.0 (Starts-word d h.3.1)

  groups_read :
      (mode_group 0 (groups_text a b c d) ≡ a)
      × (mode_group 1 (groups_text a b c d) ≡ b)
      × (mode_group 2 (groups_text a b c d) ≡ c)
      × (mode_group 3 (groups_text a b c d) ≡ d)
  unfolding mode_group
  groups_read = (
    token-first b',' comma a (b ++ (b',' ∷ (c ++ (b',' ∷ d)))) h.0.1 h.0.0,
    past_a 0 ∙ token-first b',' comma b (c ++ (b',' ∷ d)) h.1.1 h.1.0,
    past_a 1 ∙ past_b 0 ∙ token-first b',' comma c d h.2.1 h.2.0,
    past_a 2 ∙ past_b 1 ∙ past_c ∙ token-only b',' comma d h.3.1,
  )

  pub type_in-chan_modes_of :
      (mode : ℕ) → type_in mode (chan_modes_of (groups_text a b c d)) ≡ type_of a b c d mode
  unfolding chan_modes_of
  type_in-chan_modes_of mode =
      let (ea, eb, ec, ed) = groups_read in
      rw ea (rw eb (rw ec (rw ed (type_in-four_types a b c d mode))))

-- Modes and prefixes that `PREFIX` can hold
abbrev pub ArePrefixes : Bytes → Bytes → Type 0
ArePrefixes modes prefixes =
    (prefixes ≢ [])
    × (length modes ≡ length prefixes)
    × Lacks b')' modes
    × Lacks b'(' modes
    × Lacks b')' prefixes

close : ◌≢◌ {A = ℕ} b')' 0
close = omega arith

Starts-close : (w : Bytes) → Lacks b')' w → Starts b')' w
Starts-close [] h = tt
Starts-close (x ∷ w) h = h.0

no_open : (modes : Bytes) → Lacks b'(' modes → trim_left (codes "(") (b'(' ∷ modes) ≡ modes
unfolding trim_left contains_char
no_open [] h = refl
no_open (x ∷ modes) h = let (n, hs) = h in ground arith

pub ==_of : (a b : ℕ) → a ≡ b → (a == b) ≡ true
==_of a b e = ground arith

not_nil : (s : Bytes) → s ≢ [] → is_nil s ≡ false
not_nil [] n = absurd (n refl)
not_nil (x ∷ s) n = refl

pub set_prefix-text :
    (modes prefixes : Bytes) (t : ModeTable)
    → ArePrefixes modes prefixes
    → set_prefix (b'(' ∷ modes ++ (b')' ∷ prefixes)) t
      ≡ record t { perms = prefixes; perm_modes = modes }
unfolding set_prefix
set_prefix-text modes prefixes t (n, same, lm, lo, lp) =
    let opened : Lacks b')' (b'(' ∷ modes) = (omega arith, lm) in
    let second =
      token-next b')' close 0 false (b'(' ∷ modes) prefixes opened (λ e. ground arith)
        (Starts-close prefixes lp)
      ∙ token-only b')' close prefixes lp in
    let first = token-first b')' close (b'(' ∷ modes) prefixes opened (λ e. ground arith) in
    rw second (
      rw first (
        rw (no_open modes lo)
          (rw (not_nil prefixes n) (rw (==_of (length modes) (length prefixes) same) refl))))
