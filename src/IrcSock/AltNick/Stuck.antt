-- ===== src/IrcSock/AltNick/Stuck.antt =====
-- A configuration with which the attempts go on without an end.
use znc_playground.IrcSock.AltNick.Defs.{
  NickNames, Attempt, same, with_char, is_nil, next_letter, letter_attempt, next_nick, do_attempt,
  nick_line,
}
use znc_playground.IrcSock.AltNick.Refused.{refuse, sent, send_alt_nick-sent}
use znc_playground.IrcSock.AltNick.Same.{same_sym, same-longer, same-with_char}
use znc_playground.IrcSock.AltNick.Steps.{
  next_nick-conf, next_nick-alt, next_nick-with_char, next_nick-letter, next_nick-other,
}
use znc_playground.Prelude.{
  ℕ, zero, suc, ◌+◌, ◌^◌, ◌<◌, ◌≤◌, ◌≡◌, ◌≢◌, ◌∙◌, refl, ap, false, List, [], ◌∷◌, ◌++◌, ◌==◌,
  Bool-cases, ◌⊎◌, inl, inr, length, length-append, Bytes, arith,
}
use znc_playground.Text.Ctype.{to_lower}
use znc_playground.Text.Split.{Lacks}

-- The other nick is the nick of the configuration with a z.
abbrev pub with_z : Bytes → NickNames
with_z p = record { conf = p; alt = with_char p b'z' }

-- The nicks that are asked for
data IsAsked (p : Bytes) : Bytes → Type 0 where
  conf : IsAsked p p
  minus : IsAsked p (with_char p b'-')
  bar : IsAsked p (with_char p b'|')
  hat : IsAsked p (with_char p b'^')
  letter : (c : ℕ) → b'a' ≤ c → c ≤ b'{' → IsAsked p (with_char p c)

-- One of the nicks, and the step to it
abbrev NextOf : Bytes → Bytes → Type 0
NextOf p nick =
    (next : Bytes) × (IsAsked p next × (next_nick (with_z p) p nick nick ≡ Attempt.ask next))

nil-with_char : (p : Bytes) (c : ℕ) → is_nil (with_char p c) ≡ false
nil-with_char [] c = refl
nil-with_char (x ∷ p) c = refl

up_to_brace : (c : ℕ) → c ≤ b'{' → (c < b'z') ⊎ ((c ≡ b'z') ⊎ (c ≡ b'{'))
up_to_brace c h = ground arith

module _ (p : Bytes) (text : Lacks 0 p) where
  alt-with_char : (c : ℕ) → c ≢ 0 → same (with_char p b'z') (with_char p c) ≡ (b'z' == to_lower c)
  unfolding to_lower
  alt-with_char c n = same-with_char p text b'z' c (omega arith) n

  below_z : (c : ℕ) → b'a' ≤ c → c < b'z' → same (with_char p b'z') (with_char p c) ≡ false
  unfolding to_lower
  below_z c lo hi = alt-with_char c (omega arith) ∙ ground arith

  -- Behind a letter up to y
  letter-next : (c : ℕ) → b'a' ≤ c → c < b'z' → NextOf p (with_char p c)
  unfolding to_lower
  letter-next c lo hi = elim (Bool-cases (same (with_char p b'z') (with_char p (suc c)))) [
    | inl e ↦ (
      with_char p (suc (suc c)),
      (
        letter (suc (suc c)) (omega arith) (omega arith),
        next_nick-letter (with_z p) text c lo hi (below_z c lo hi) ∙ rw e refl,
      ),
    )
    | inr e ↦ (
      with_char p (suc c),
      (
        letter (suc c) (omega arith) (omega arith),
        next_nick-letter (with_z p) text c lo hi (below_z c lo hi) ∙ rw e refl,
      ),
    )
  ]

  apart_z : same p (with_char p b'z') ≡ false
  apart_z = same_sym p (with_char p b'z') ∙ same-longer p text b'z' (omega arith)

  -- Behind the other nick, and behind the character that follows z
  z-next : NextOf p (with_char p b'z')
  unfolding to_lower
  z-next = (
    with_char p b'-',
    (
      minus,
      next_nick-alt (with_z p) text (with_char p b'z') apart_z (alt-with_char b'|' (omega arith))
          ∙ rw (alt-with_char b'-' (omega arith)) refl,
    ),
  )

  brace-next : NextOf p (with_char p b'{')
  unfolding to_lower letter_attempt next_letter
  brace-next = (
    with_char p b'|',
    (
      bar,
      next_nick-other (with_z p) text b'{' (omega arith) (omega arith)
            (alt-with_char b'{' (omega arith))
          ∙ rw (same-with_char p text b'|' b'z' (omega arith) (omega arith)) refl,
    ),
  )

  -- Behind each of them comes another of them.
  asked-next : {nick : Bytes} → IsAsked p nick → NextOf p nick
  unfolding to_lower letter_attempt next_letter
  asked-next conf = (
    with_char p b'z',
    (
      letter b'z' (omega arith) (omega arith),
      next_nick-conf (with_z p) text p ∙ rw (nil-with_char p b'z') (rw apart_z refl),
    ),
  )
  asked-next minus = (
    with_char p b'|',
    (
      bar,
      next_nick-with_char (with_z p) text b'-' (omega arith)
            (same-with_char p text b'-' b'z' (omega arith) (omega arith))
          ∙ rw (alt-with_char b'|' (omega arith)) refl,
    ),
  )
  asked-next bar = (
    with_char p b'^',
    (
      hat,
      next_nick-with_char (with_z p) text b'|' (omega arith)
            (same-with_char p text b'|' b'z' (omega arith) (omega arith))
          ∙ rw (alt-with_char b'^' (omega arith)) refl,
    ),
  )
  asked-next hat = (
    with_char p b'a',
    (
      letter b'a' (omega arith) (omega arith),
      next_nick-with_char (with_z p) text b'^' (omega arith)
            (same-with_char p text b'^' b'z' (omega arith) (omega arith))
          ∙ rw (alt-with_char b'a' (omega arith)) refl,
    ),
  )
  asked-next (letter c lo hi) = elim (up_to_brace c hi) [
    | inl less ↦ letter-next c lo less
    | inr (inl e) ↦ rw e z-next
    | inr (inr e) ↦ rw e brace-next
  ]

refuse-IsAsked :
    (p : Bytes) (m : ℕ)
    → Lacks 0 p
    → length p < m
    → m < 2 ^ 32
    → (n : ℕ) (nick : Bytes) → IsAsked p nick
    → (puts : List Bytes)
    → ((refuse (with_z p) n (sent m nick puts)).quit ≡ false)
      × (length (refuse (with_z p) n (sent m nick puts)).put ≡ length puts + n)
unfolding refuse do_attempt
refuse-IsAsked p m text short bound zero nick a puts = (refl, omega arith)
refuse-IsAsked p m text short bound (suc n) nick a puts =
    let (next, later) = asked-next p text a in
    rw
      (send_alt_nick-sent (with_z p) m short bound nick puts
        ∙ ap (λ t. do_attempt t (sent m nick puts)) later.1)
      (let rest =
          refuse-IsAsked p m text short bound n next later.0 (puts ++ nick_line next ∷ []) in
        (rest.0, rest.1 ∙ ap (λ k. k + n) (length-append puts (nick_line next ∷ [])) ∙ omega arith))

-- The nick of the configuration has no NUL and is shorter than the limit of nicks, the other nick is the same with a z behind it, and
-- a server refuses every nick and says the whole nick when it does. Then the connection never quits: it
-- asks for a nick behind each refusal.
pub refuse-stuck :
    (p : Bytes) (m : ℕ)
    → Lacks 0 p
    → length p < m
    → m < 2 ^ 32
    → (puts : List Bytes) (n : ℕ)
    → ((refuse (with_z p) n (sent m p puts)).quit ≡ false)
      × (length (refuse (with_z p) n (sent m p puts)).put ≡ length puts + n)
refuse-stuck p m text short bound puts n = refuse-IsAsked p m text short bound n p conf puts
