-- ===== src/IrcSock/AltNick/Order.antt =====
-- The nicks that are asked for, in their order.
use znc_playground.IrcSock.AltNick.Defs.{
  NickNames, Attempt, same, with_char, is_nil, letter_attempt, next_nick, nick_line,
}
use znc_playground.IrcSock.AltNick.Refused.{refuse, sent, Ends, Ends-ask, Ends-give_up}
use znc_playground.IrcSock.AltNick.Same.{
  same_sym, same_alike, same-longer, same-with_char, same-nil,
}
use znc_playground.IrcSock.AltNick.Steps.{
  next_nick-conf, next_nick-alt, next_nick-with_char, next_nick-letter, next_nick-other,
}
use znc_playground.Prelude.{
  ℕ, zero, suc, ◌+◌, ◌^◌, ◌<◌, ◌≤◌, ◌≡◌, ◌∙◌, sym, refl, true, false, not, ◌&&◌, List, [], ◌∷◌,
  ◌++◌, some, if◌then◌else◌, if_elim, Bool-cases, inl, inr, length, map, Bytes, codes, arith,
}
use znc_playground.Text.Ctype.{to_lower}
use znc_playground.Text.Split.{Lacks}

-- The nick of the configuration with each of the characters, without the other nick
unfoldable pub nicks_with : NickNames → Bytes → List Bytes
nicks_with w [] = []
nicks_with w (c ∷ cs) =
    let rest = nicks_with w cs in
    if same w.alt (with_char w.conf c) then rest else with_char w.conf c ∷ rest

unfoldable pub nick_order : NickNames → List Bytes
unfolding nicks_with
nick_order w =
    let others = nicks_with w (codes "-|^abcdefghijklmnopqrstuvwxyz") in
    if not (is_nil w.alt) && not (same w.conf w.alt) then w.alt ∷ others else others

-- The `n` characters behind `c`
abbrev chars_behind : ℕ → ℕ → Bytes
chars_behind zero c = []
chars_behind (suc n) c = suc c ∷ chars_behind n (suc c)

-- The other nick is not the nick of the configuration with one of four characters, at which the code
-- would leave its order.
abbrev pub IsApart : NickNames → Type 0
IsApart w =
    (same w.alt (with_char w.conf b'|') ≡ false)
    × (same w.alt (with_char w.conf b'^') ≡ false)
    × (same w.alt (with_char w.conf b'a') ≡ false)
    × (same w.alt (with_char w.conf b'z') ≡ false)

module _ (w : NickNames) (m : ℕ) (text : Lacks 0 w.conf) (short : length w.conf < m)
    (bound : m < 2 ^ 32) (apart : IsApart w) where
  last-letter :
      (c : ℕ)
      → c ≡ b'z'
      → letter_attempt w.alt w.conf (some c) ≡ Attempt.give_up (codes "No free nick found")
  unfolding letter_attempt
  last-letter c e = rw e refl

  -- The other nick has one character behind the nick of the configuration at most.
  same-suc :
      (c : ℕ)
      → b'a' ≤ c
      → suc c ≤ b'z'
      → same w.alt (with_char w.conf c) ≡ true
      → same w.alt (with_char w.conf (suc c)) ≡ false
  unfolding to_lower
  same-suc c lo hi e =
      same_sym w.alt (with_char w.conf (suc c))
      ∙ (sym (same_alike (with_char w.conf (suc c)) w.alt (with_char w.conf c) e)
          ∙ (same-with_char w.conf text (suc c) c (omega arith) (omega arith) ∙ ground arith))

  -- A step to the nick with another character
  Ends-with_char :
      (nick : Bytes) (d : ℕ) (ds : Bytes)
      → next_nick w w.conf nick nick ≡ Attempt.ask (with_char w.conf d)
      → same w.alt (with_char w.conf d) ≡ false
      → Ends w m (with_char w.conf d) (nicks_with w ds)
      → Ends w m nick (nicks_with w (d ∷ ds))
  unfolding nicks_with
  Ends-with_char nick d ds e f later =
      rw f (Ends-ask w m short bound nick (with_char w.conf d) (nicks_with w ds) e later)

  -- A step over a character
  Ends-over :
      (nick : Bytes) (d : ℕ) (ds : Bytes)
      → same w.alt (with_char w.conf d) ≡ true
      → Ends w m nick (nicks_with w ds)
      → Ends w m nick (nicks_with w (d ∷ ds))
  unfolding nicks_with
  Ends-over nick d ds e later = rw e later

  letters-Ends :
      (n c : ℕ)
      → c + n ≡ b'z'
      → b'a' ≤ c
      → same w.alt (with_char w.conf c) ≡ false
      → Ends w m (with_char w.conf c) (nicks_with w (chars_behind n c))
  unfolding nicks_with
  letters-Ends zero c z lo e =
      Ends-give_up w m short bound (with_char w.conf c) (codes "No free nick found")
        (next_nick-other w text c lo (omega arith) e ∙ last-letter c (omega arith))
  letters-Ends (suc zero) c z lo e =
      let c_is : suc c ≡ b'z' = omega arith in
      let f : same w.alt (with_char w.conf (suc c)) ≡ false = rw c_is apart.3 in
      Ends-with_char (with_char w.conf c) (suc c) []
        (next_nick-letter w text c lo (omega arith) e ∙ rw f refl) f
        (letters-Ends zero (suc c) (omega arith) (omega arith) f)
  letters-Ends (suc (suc n)) c z lo e = elim (Bool-cases (same w.alt (with_char w.conf (suc c)))) [
    | inr f ↦
        Ends-with_char (with_char w.conf c) (suc c) (chars_behind (suc n) (suc c))
          (next_nick-letter w text c lo (omega arith) e ∙ rw f refl) f
          (letters-Ends (suc n) (suc c) (omega arith) (omega arith) f)
    | inl f ↦ Ends-over (with_char w.conf c) (suc c) (chars_behind (suc n) (suc c)) f (
        let g : same w.alt (with_char w.conf (suc (suc c))) ≡ false =
          same-suc (suc c) (omega arith) (omega arith) f in
        Ends-with_char (with_char w.conf c) (suc (suc c)) (chars_behind n (suc (suc c)))
          (next_nick-letter w text c lo (omega arith) e ∙ rw f refl) g
          (letters-Ends n (suc (suc c)) (omega arith) (omega arith) g))
  ]

  -- Behind the nick with the first, the second or the third character
  bar-Ends : Ends w m (with_char w.conf b'|') (nicks_with w (b'^' ∷ b'a' ∷ chars_behind 25 b'a'))
  unfolding to_lower
  bar-Ends =
      Ends-with_char (with_char w.conf b'|') b'^' (b'a' ∷ chars_behind 25 b'a')
        (next_nick-with_char w text b'|' (omega arith) (same_sym _ w.alt ∙ apart.0)
          ∙ rw apart.1 refl)
        apart.1
        (Ends-with_char (with_char w.conf b'^') b'a' (chars_behind 25 b'a')
          (next_nick-with_char w text b'^' (omega arith) (same_sym _ w.alt ∙ apart.1)
            ∙ rw apart.2 refl)
          apart.2 (letters-Ends 25 b'a' refl (omega arith) apart.2))

  minus-Ends :
      same w.alt (with_char w.conf b'-') ≡ false
      → Ends w m (with_char w.conf b'-') (nicks_with w (b'|' ∷ b'^' ∷ b'a' ∷ chars_behind 25 b'a'))
  unfolding to_lower
  minus-Ends e =
      Ends-with_char (with_char w.conf b'-') b'|' (b'^' ∷ b'a' ∷ chars_behind 25 b'a')
        (next_nick-with_char w text b'-' (omega arith) (same_sym _ w.alt ∙ e) ∙ rw apart.0 refl)
        apart.0 bar-Ends

  alt-Ends :
      same w.conf w.alt ≡ false
      → Ends w m w.alt (nicks_with w (b'-' ∷ b'|' ∷ b'^' ∷ b'a' ∷ chars_behind 25 b'a'))
  alt-Ends e = elim (Bool-cases (same w.alt (with_char w.conf b'-'))) [
    | inr f ↦
        Ends-with_char w.alt b'-' (b'|' ∷ b'^' ∷ b'a' ∷ chars_behind 25 b'a')
          (next_nick-alt w text w.alt e apart.0 ∙ rw f refl) f (minus-Ends f)
    | inl f ↦ Ends-over w.alt b'-' (b'|' ∷ b'^' ∷ b'a' ∷ chars_behind 25 b'a') f (
        Ends-with_char w.alt b'|' (b'^' ∷ b'a' ∷ chars_behind 25 b'a')
          (next_nick-alt w text w.alt e apart.0 ∙ rw f refl) apart.0 bar-Ends)
  ]

  -- Where the configuration has no other nick
  alone :
      (not (is_nil w.alt) && not (same w.conf w.alt)) ≡ false
      → same w.alt (with_char w.conf b'-') ≡ false
  alone u = elim (Bool-cases (is_nil w.alt)) [
    | inl e ↦ same-nil w.conf text w.alt b'-' (omega arith) e
    | inr e ↦
        same_sym w.alt (with_char w.conf b'-')
        ∙ (same_alike (with_char w.conf b'-') w.conf w.alt (ground arith)
            ∙ same-longer w.conf text b'-' (omega arith))
  ]

  -- All the nicks that follow the nick of the configuration
  order-Ends : Ends w m w.conf (nick_order w)
  unfolding nick_order
  order-Ends = elim (Bool-cases (not (is_nil w.alt) && not (same w.conf w.alt))) [
    | inl u ↦ rw u (
        Ends-ask w m short bound w.conf w.alt (nicks_with w (codes "-|^abcdefghijklmnopqrstuvwxyz"))
          (next_nick-conf w text w.conf ∙ rw u refl) (alt-Ends (ground arith)))
    | inr u ↦ rw u (
        (Ends-with_char w.conf b'-' (b'|' ∷ b'^' ∷ b'a' ∷ chars_behind 25 b'a')
          (next_nick-conf w text w.conf ∙ rw u refl) (alone u) (minus-Ends (alone u))))
  ]

length-nicks_with : (w : NickNames) (cs : Bytes) → length (nicks_with w cs) ≤ length cs
unfolding nicks_with
length-nicks_with w [] = omega arith
length-nicks_with w (c ∷ cs) = ground (arith, length-nicks_with w cs)

length-nick_order : (w : NickNames) → length (nick_order w) ≤ 30
unfolding nick_order
length-nick_order w =
    let cs : Bytes = codes "-|^abcdefghijklmnopqrstuvwxyz" in
    let few : length (nicks_with w cs) ≤ 29 = length-nicks_with w cs in
    if_elim (λ (names : List Bytes). length names ≤ 30)
      (not (is_nil w.alt) && not (same w.conf w.alt)) (w.alt ∷ nicks_with w cs) (nicks_with w cs)
      (λ u. omega arith) (λ u. omega arith)

-- A server refuses every nick and says the whole nick when it does. The nick of the configuration has
-- no NUL and is shorter than the limit of nicks, and the other nick is not, in whatever case, that nick
-- with a bar, a hat, an a or a z behind it. Then 31 refusals are enough for the connection to quit. The
-- nicks that it asks for before are the other nick, if there is one that is not the first in whatever
-- case, and the nick of the configuration with each of 29 characters, in their order, without those
-- that are the other nick in whatever case.
pub refuse-order :
    (w : NickNames) (m : ℕ)
    → Lacks 0 w.conf
    → length w.conf < m
    → m < 2 ^ 32
    → IsApart w
    → (puts : List Bytes) (n : ℕ) → 30 < n
    → ((refuse w n (sent m w.conf puts)).quit ≡ true)
      × ((refuse w n (sent m w.conf puts)).put ≡ puts ++ map nick_line (nick_order w))
unfolding Ends
refuse-order w m text short bound apart puts n h =
    let few : length (nick_order w) ≤ 30 = length-nick_order w in
    order-Ends w m text short bound apart puts n (omega arith)
