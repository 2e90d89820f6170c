-- ===== src/IrcSock/AltNick/Steps.antt =====
-- What is asked for behind each nick, where a nick may be longer than the one of the configuration.
use znc_playground.IrcSock.AltNick.Defs.{
  NickNames, Attempt, same, with_char, is_nil, next_char, next_letter, last_char, letter_attempt,
  next_nick,
}
use znc_playground.IrcSock.AltNick.Same.{same_sym, same-longer, same-with_char}
use znc_playground.Prelude.{
  ℕ, suc, ◌<◌, ◌≤◌, ◌≡◌, ◌≢◌, ◌∙◌, refl, false, not, ◌&&◌, [], ◌∷◌, ◌++◌, ◌==◌, some, if◌then◌else◌,
  Bytes, arith,
}
use znc_playground.Text.Compare.Prefix.{equals_refl}
use znc_playground.Text.Compare.{insensitive}
use znc_playground.Text.Ctype.{to_lower}
use znc_playground.Text.Split.{Lacks}

last_char-append : (s : Bytes) (c : ℕ) → last_char (s ++ c ∷ []) ≡ some c
unfolding last_char
last_char-append [] c = refl
last_char-append (x ∷ []) c = refl
last_char-append (x ∷ y ∷ s) c = last_char-append (y ∷ s) c

module _ (w : NickNames) (h : Lacks 0 w.conf) where
  pub next_nick-conf :
      (bad : Bytes)
      → next_nick w w.conf w.conf bad ≡ (
          if not (is_nil w.alt) && not (same w.conf w.alt)
          then Attempt.ask w.alt
          else Attempt.ask (with_char w.conf b'-'))
  unfolding next_nick
  next_nick-conf bad = rw (equals_refl insensitive w.conf) refl

  -- Behind the other nick of the configuration
  pub next_nick-alt :
      (bad : Bytes)
      → same w.conf w.alt ≡ false
      → same w.alt (with_char w.conf b'|') ≡ false
      → next_nick w w.conf w.alt bad
        ≡ Attempt.ask (with_char w.conf (if same w.alt (with_char w.conf b'-') then b'|' else b'-'))
  unfolding next_nick
  next_nick-alt bad e f =
      rw (same_sym w.alt w.conf ∙ e) (rw (equals_refl insensitive w.alt) (rw f (ground arith)))

  -- Behind the nick with a character
  pub next_nick-with_char :
      (c : ℕ)
      → c ≢ 0
      → same (with_char w.conf c) w.alt ≡ false
      → next_nick w w.conf (with_char w.conf c) (with_char w.conf c) ≡ (
          if to_lower c == b'-' && not (same w.alt (with_char w.conf b'|'))
          then Attempt.ask (with_char w.conf b'|')
          else if to_lower c == b'|' && not (same w.alt (with_char w.conf b'^'))
          then Attempt.ask (with_char w.conf b'^')
          else if to_lower c == b'^' && not (same w.alt (with_char w.conf b'a'))
          then Attempt.ask (with_char w.conf b'a')
          else letter_attempt w.alt w.conf (some c))
  unfolding next_nick to_lower
  next_nick-with_char c n e = rw (same-longer w.conf h c n) (
      rw e (
        rw (same-with_char w.conf h c b'-' n (omega arith)) (
          rw (same-with_char w.conf h c b'|' n (omega arith)) (
            rw (same-with_char w.conf h c b'^' n (omega arith))
              (rw (last_char-append w.conf c) refl)))))

  -- Behind a letter
  pub next_nick-other :
      (c : ℕ)
      → b'a' ≤ c
      → c ≤ b'{'
      → same w.alt (with_char w.conf c) ≡ false
      → next_nick w w.conf (with_char w.conf c) (with_char w.conf c)
        ≡ letter_attempt w.alt w.conf (some c)
  unfolding to_lower
  next_nick-other c lo hi e =
      let minus : (to_lower c == b'-') ≡ false = ground arith in
      let bar : (to_lower c == b'|') ≡ false = ground arith in
      let hat : (to_lower c == b'^') ≡ false = ground arith in
      next_nick-with_char c (omega arith) (same_sym (with_char w.conf c) w.alt ∙ e)
      ∙ rw minus (rw bar (rw hat refl))

  -- Behind a letter up to y
  pub next_nick-letter :
      (c : ℕ)
      → b'a' ≤ c
      → c < b'z'
      → same w.alt (with_char w.conf c) ≡ false
      → next_nick w w.conf (with_char w.conf c) (with_char w.conf c)
        ≡ Attempt.ask (
            if same w.alt (with_char w.conf (suc c))
            then with_char w.conf (suc (suc c))
            else with_char w.conf (suc c))
  unfolding letter_attempt next_letter to_lower
  next_nick-letter c lo hi e =
      let before : (c == b'z') ≡ false = ground arith in
      let one : next_char c ≡ suc c = omega arith in
      let two : next_char (suc c) ≡ suc (suc c) = omega arith in
      next_nick-other c lo (omega arith) e
      ∙ rw before (rw one (rw two (rw (same_sym (with_char w.conf (suc c)) w.alt) refl)))
