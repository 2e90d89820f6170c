-- ===== src/IrcSock/AltNick/Refused.antt =====
-- A server that refuses each nick, and says the whole nick when it does.
use znc_playground.IrcSock.AltNick.Defs.{
  NickNames, NickState, Attempt, next_nick, send_alt_nick, nick_line, do_attempt, learned_len,
}
use znc_playground.Prelude.{
  ℕ, zero, suc, ◌+◌, ◌-◌, ◌%◌, ◌^◌, ◌<◌, ◌≤◌, ◌≡◌, ◌∙◌, sym, refl, ap, true, false, List, [], ◌∷◌,
  ◌++◌, if◌then◌else◌, ltb, length, take, map, append_assoc, append-nil, Bytes, arith,
}
use znc_playground.Text.Compare.{left}

-- At most `n` nicks are refused; after `Quit` there is no connection.
unfoldable pub refuse : NickNames → ℕ → NickState → NickState
unfolding send_alt_nick
refuse w zero s = s
refuse w (suc n) s = let rest = refuse w n (send_alt_nick w s.nick s) in if s.quit then s else rest

-- The connection that has sent `nick`, with nicks of `m` characters at most
abbrev pub sent : ℕ → Bytes → List Bytes → NickState
sent m nick puts = record { nick = nick; max_nick_len = m; put = puts; told = []; quit = false }

take_all : (n : ℕ) (s : Bytes) → length s ≤ n → take n s ≡ s
take_all zero [] h = refl
take_all zero (x ∷ s) h = absurd (omega arith)
take_all (suc n) [] h = refl
take_all (suc n) (x ∷ s) h = ap (◌∷◌ x) (take_all n s (omega arith))

pub left-short :
    (m : ℕ) (s : Bytes) → length s < m → m < 2 ^ 32 → left ((m + 2 ^ 32 - 1) % 2 ^ 32) s ≡ s
unfolding left
left-short m s h b =
    take_all
      (if ltb (length s) ((m + 2 ^ 32 - 1) % 2 ^ 32) then length s else (m + 2 ^ 32 - 1) % 2 ^ 32) s
      (ground arith)

-- Once `nick` is sent, the nicks of `names` follow, and then the connection quits.
unfoldable pub Ends : NickNames → ℕ → Bytes → List Bytes → Type 0
Ends w m nick names =
    (puts : List Bytes) (n : ℕ)
    → length names < n
    → ((refuse w n (sent m nick puts)).quit ≡ true)
      × ((refuse w n (sent m nick puts)).put ≡ puts ++ map nick_line names)

learned_len-sent :
    (m : ℕ) (nick : Bytes) (puts : List Bytes) → learned_len nick (sent m nick puts) ≡ m
unfolding learned_len
learned_len-sent m nick puts = ground arith

refuse-quit : (w : NickNames) (n : ℕ) (s : NickState) → s.quit ≡ true → refuse w n s ≡ s
unfolding refuse
refuse-quit w zero s h = refl
refuse-quit w (suc n) s h = rw h refl

module _ (w : NickNames) (m : ℕ) (short : length w.conf < m) (bound : m < 2 ^ 32) where
  pub send_alt_nick-sent :
      (nick : Bytes) (puts : List Bytes)
      → send_alt_nick w nick (sent m nick puts)
        ≡ do_attempt (next_nick w w.conf nick nick) (sent m nick puts)
  unfolding send_alt_nick
  send_alt_nick-sent nick puts =
      rw (learned_len-sent m nick puts) (rw (left-short m w.conf short bound) refl)

  pub Ends-ask :
      (nick next : Bytes) (names : List Bytes)
      → next_nick w w.conf nick nick ≡ Attempt.ask next
      → Ends w m next names
      → Ends w m nick (next ∷ names)
  unfolding Ends refuse do_attempt
  Ends-ask nick next names e later puts (suc n) h =
      rw (send_alt_nick-sent nick puts ∙ ap (λ a. do_attempt a (sent m nick puts)) e) (
        let rest = later (puts ++ nick_line next ∷ []) n (omega arith) in
        (rest.0, rest.1 ∙ append_assoc puts (nick_line next ∷ []) (map nick_line names)))
  Ends-ask nick next names e later puts zero h = absurd (omega arith)

  pub Ends-give_up :
      (nick why : Bytes) → next_nick w w.conf nick nick ≡ Attempt.give_up why → Ends w m nick []
  unfolding Ends refuse do_attempt
  Ends-give_up nick why e puts (suc n) h =
      rw (send_alt_nick-sent nick puts ∙ ap (λ a. do_attempt a (sent m nick puts)) e) (
        rw (refuse-quit w n (do_attempt (Attempt.give_up why) (sent m nick puts)) refl)
          (refl, sym (append-nil puts)))
  Ends-give_up nick why e puts zero h = absurd (omega arith)
