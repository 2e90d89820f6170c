-- ===== src/IrcSock/Support/Reply.antt =====
-- The tables after a reply that announces the modes, and other things.
use znc_playground.Channel.{ModeTable}
use znc_playground.IrcSock.Support.Defs.{
  Support, chan_modes_of, is_nil, set_prefix, set_value, param_name, param_value, begins_colon,
  named, support_loop,
}
use znc_playground.IrcSock.Support.Tables.{AreGroups, groups_text, ArePrefixes, set_prefix-text}
use znc_playground.Prelude.{
  ℕ, ◌≡◌, ◌≢◌, refl, ap, ◌∙◌, true, false, List, [], ◌∷◌, ◌++◌, ◌==◌, All, if_elim, Bytes, codes,
  arith,
}
use znc_playground.StringMap.{insert}
use znc_playground.Text.Compare.{equals}
use znc_playground.Text.Number.{to_uint}
use znc_playground.Text.Split.{Lacks}
use znc_playground.Text.Token.{Starts, token-first, token-next, token-rest}

equals_sign : ◌≢◌ {A = ℕ} b'=' 0
equals_sign = omega arith

-- A parameter that sets a name to a value
module _ (name value : Bytes) (n : name ≢ []) (h : Lacks b'=' name) (k : Starts b'=' value) where
  param_name-set : param_name (name ++ (b'=' ∷ value)) ≡ name
  param_name-set = token-first b'=' equals_sign name value h n

  param_value-set : param_value (name ++ (b'=' ∷ value)) ≡ value
  param_value-set =
      token-next b'=' equals_sign 0 true name value h n k ∙ token-rest b'=' equals_sign value k

  support_loop-set :
      (rest : List Bytes) (s : Support)
      → rest ≢ []
      → begins_colon name ≡ false
      → support_loop ((name ++ (b'=' ∷ value)) ∷ rest) s
        ≡ support_loop rest
            (set_value name value (record s { values = insert name value s.values }))
  unfolding support_loop
  support_loop-set [] s m e = absurd (m refl)
  support_loop-set (q ∷ ps) s m e = rw param_name-set (rw param_value-set (rw e refl))

abbrev pub prefix_param : Bytes → Bytes → Bytes
prefix_param modes prefixes = codes "PREFIX" ++ (b'=' ∷ b'(' ∷ modes ++ (b')' ∷ prefixes))

abbrev pub chan_modes_param : Bytes → Bytes → Bytes → Bytes → Bytes
chan_modes_param a b c d = codes "CHANMODES" ++ (b'=' ∷ groups_text a b c d)

Starts-groups : (a b c d : Bytes) → a ≢ [] → Lacks b'=' a → Starts b'=' (groups_text a b c d)
Starts-groups [] b c d n h = absurd (n refl)
Starts-groups (x ∷ a) b c d n h = h.0

set_value-prefix :
    (value : Bytes) (s : Support)
    → set_value (codes "PREFIX") value s ≡ record s { table = set_prefix value s.table }
unfolding set_value equals
set_value-prefix value s = refl

set_value-chan_modes :
    (value : Bytes) (s : Support)
    → is_nil value ≡ false
    → set_value (codes "CHANMODES") value s
      ≡ record s { table = record s.table { chan_modes = chan_modes_of value } }
unfolding set_value equals
set_value-chan_modes value s e = rw e refl

groups-not_nil : (a b c d : Bytes) → a ≢ [] → is_nil (groups_text a b c d) ≡ false
groups-not_nil [] b c d n = absurd (n refl)
groups-not_nil (x ∷ a) b c d n = refl

abbrev pub announced : Bytes → Bytes → Bytes → Bytes → Bytes → Bytes → ModeTable
announced modes prefixes a b c d = record {
  perms = prefixes;
  perm_modes = modes;
  chan_modes = chan_modes_of (groups_text a b c d);
}

-- A parameter of the reply that announces something else
abbrev pub IsOther : Bytes → Type 0
IsOther p =
    (begins_colon (param_name p) ≡ false)
    × (named (param_name p) (codes "PREFIX") ≡ false)
    × (named (param_name p) (codes "CHANMODES") ≡ false)

set_value-other :
    (name value : Bytes) (s : Support)
    → named name (codes "PREFIX") ≡ false
    → named name (codes "CHANMODES") ≡ false
    → (set_value name value s).table ≡ s.table
unfolding set_value
set_value-other name value s e f =
    let P : Support → Type 0 = λ t. t.table ≡ s.table in
    rw e (
      if_elim P (named name (codes "CHANTYPES")) _ _ (λ c. refl)
        (λ c.
          if_elim P (named name (codes "NICKLEN")) _ _
            (λ n. if_elim P (to_uint value == 0) _ _ (λ z. refl) (λ z. refl))
            (λ n. rw f (
              if_elim P (named name (codes "NAMESX")) _ _
                (λ x. if_elim P s.namesx _ _ (λ z. refl) (λ z. refl))
                (λ x.
                  if_elim P (named name (codes "UHNAMES")) _ _
                    (λ u. if_elim P s.uh_names _ _ (λ z. refl) (λ z. refl)) (λ u. refl))))))

support_loop-cons :
    (x : Bytes) (rest : List Bytes) (s : Support)
    → rest ≢ []
    → begins_colon (param_name x) ≡ false
    → support_loop (x ∷ rest) s
      ≡ support_loop rest (
          set_value
            (param_name x)
            (param_value x)
            (record s { values = insert (param_name x) (param_value x) s.values }))
unfolding support_loop
support_loop-cons x [] s n e = absurd (n refl)
support_loop-cons x (y ∷ rest) s n e = rw e refl

behind_ne : (xs : List Bytes) (q : Bytes) (ps : List Bytes) → (xs ++ q ∷ ps) ≢ []
behind_ne [] q ps e = cc
behind_ne (x ∷ xs) q ps e = cc

-- The loop passes over others and leaves the tables.
support_loop-others :
    (xs : List Bytes) (q : Bytes) (ps : List Bytes) (s : Support)
    → All IsOther xs
    → (t : Support) × ((t.table ≡ s.table)
        × (support_loop (xs ++ q ∷ ps) s ≡ support_loop (q ∷ ps) t))
support_loop-others [] q ps s h = (s, (refl, refl))
support_loop-others (x ∷ xs) q ps s h =
    let t : Support =
      set_value (param_name x) (param_value x)
        (record s { values = insert (param_name x) (param_value x) s.values }) in
    let (u, later) = support_loop-others xs q ps t h.1 in
    (
      u,
      (
        later.0 ∙ set_value-other _ _ _ h.0.1 h.0.2,
        support_loop-cons x (xs ++ q ∷ ps) s (behind_ne xs q ps) h.0.0 ∙ later.1,
      ),
    )

-- The parameters of a reply behind the nick: others in front, between and behind, and the text at the end
abbrev pub announcing : List Bytes → Bytes → List Bytes → Bytes → List Bytes → Bytes → List Bytes
announcing before prefix between modes behind text =
    before ++ prefix ∷ (between ++ modes ∷ (behind ++ text ∷ []))

prefix_read :
    (s : Support) (rest : List Bytes) (modes prefixes : Bytes)
    → rest ≢ []
    → ArePrefixes modes prefixes
    → (t : Support) × ((t.table ≡ record s.table { perms = prefixes; perm_modes = modes })
        × (support_loop (prefix_param modes prefixes ∷ rest) s ≡ support_loop rest t))
prefix_read s rest modes prefixes n p =
    let v : Bytes = b'(' ∷ modes ++ (b')' ∷ prefixes) in
    let s1 : Support = record s { values = insert (codes "PREFIX") v s.values } in
    (
      set_value (codes "PREFIX") v s1,
      (
        ap (λ u. u.table) (set_value-prefix v s1) ∙ set_prefix-text modes prefixes s.table p,
        support_loop-set (codes "PREFIX") v (λ e. ground arith) (omega arith) (omega arith) rest s n
            refl,
      ),
    )

chan_modes_read :
    (s : Support) (rest : List Bytes) (a b c d : Bytes)
    → rest ≢ []
    → AreGroups a b c d
    → Lacks b'=' a
    → (t : Support) × ((t.table
          ≡ record s.table { chan_modes = chan_modes_of (groups_text a b c d) })
        × (support_loop (chan_modes_param a b c d ∷ rest) s ≡ support_loop rest t))
chan_modes_read s rest a b c d n g h =
    let w : Bytes = groups_text a b c d in
    let s1 : Support = record s { values = insert (codes "CHANMODES") w s.values } in
    (
      set_value (codes "CHANMODES") w s1,
      (
        ap (λ u. u.table) (set_value-chan_modes w s1 (groups-not_nil a b c d g.0.0)),
        support_loop-set (codes "CHANMODES") w (λ e. ground arith) (omega arith)
            (Starts-groups a b c d g.0.0 h) rest s n refl,
      ),
    )

pub tables_read :
    (s : Support) (before between behind : List Bytes) (text modes prefixes a b c d : Bytes)
    → All IsOther before
    → All IsOther between
    → All IsOther behind
    → ArePrefixes modes prefixes
    → AreGroups a b c d
    → Lacks b'=' a
    → (support_loop
        (announcing before
          (prefix_param modes prefixes)
          between
          (chan_modes_param a b c d)
          behind
          text)
        s).table
      ≡ announced modes prefixes a b c d
unfolding support_loop
tables_read s before between behind text modes prefixes a b c d hb ht hr p g h =
    let last = behind ++ text ∷ [] in
    let rest = between ++ chan_modes_param a b c d ∷ last in
    let (s1, one) = support_loop-others before (prefix_param modes prefixes) rest s hb in
    let (s2, two) =
      prefix_read s1 rest modes prefixes (behind_ne between (chan_modes_param a b c d) last) p in
    let (s3, three) = support_loop-others between (chan_modes_param a b c d) last s2 ht in
    let (s4, four) = chan_modes_read s3 last a b c d (behind_ne behind text []) g h in
    let (s5, five) = support_loop-others behind text [] s4 hr in
    let w = chan_modes_of (groups_text a b c d) in
    ap (λ u. u.table) (one.1 ∙ two.1 ∙ three.1 ∙ four.1 ∙ five.1)
    ∙ five.0
    ∙ four.0
    ∙ ap (λ (k : ModeTable). record k { chan_modes = w })
        (three.0
          ∙ two.0
          ∙ ap (λ (k : ModeTable). record k { perms = prefixes; perm_modes = modes }) one.0)
