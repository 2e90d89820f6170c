-- ===== src/IrcSock/AltNick/Defs.antt =====
-- `SendAltNick`. An `unsigned int` has 32 bits, and a `char` is its byte.
use znc_playground.Prelude.{
  ℕ, ◌+◌, ◌-◌, ◌%◌, ◌^◌, Bool, true, false, not, ◌&&◌, ◌==◌, List, [], ◌∷◌, ◌++◌, Option, none,
  some, if◌then◌else◌, ltb, length, Bytes, codes,
}
use znc_playground.Text.Compare.{equals, insensitive, left}

-- The nicks of the network's configuration
pub record NickNames : Type 0 where
  pub conf : Bytes
  pub alt : Bytes

-- The part of `CIRCSock` that asks for nicks. `put` has the lines that `PutIRC` was given, in their
-- order, `told` what the user was told, and `quit` says that `Quit` was called.
pub record NickState : Type 0 where
  pub nick : Bytes
  pub max_nick_len : ℕ
  pub put : List Bytes
  pub told : List Bytes
  pub quit : Bool

-- A nick to ask for, or what the user is told when there is none
pub data Attempt : Type 0 where
  ask : Bytes → Attempt
  give_up : Bytes → Attempt

abbrev pub same : Bytes → Bytes → Bool
same = equals insensitive

abbrev pub is_nil : Bytes → Bool
is_nil [] = true
is_nil (c ∷ s) = false

abbrev pub with_char : Bytes → ℕ → Bytes
with_char p c = p ++ (c ∷ [])

-- `++cLetter`
abbrev pub next_char : ℕ → ℕ
next_char c = (c + 1) % 2 ^ 8

-- The nick with the next letter, or with the one behind it
unfoldable pub next_letter : Bytes → Bytes → ℕ → Bytes
unfolding equals
next_letter alt p c =
    if same (with_char p (next_char c)) alt
    then with_char p (next_char (next_char c))
    else with_char p (next_char c)

-- `sBadNick.back()`
unfoldable pub last_char : Bytes → Option ℕ
last_char [] = none
last_char (c ∷ []) = some c
last_char (c ∷ d ∷ s) = last_char (d ∷ s)

unfoldable pub letter_attempt : Bytes → Bytes → Option ℕ → Attempt
unfolding next_letter
letter_attempt alt p none = Attempt.give_up (codes "No free nick available")
letter_attempt alt p (some c) =
    if c == b'z'
    then Attempt.give_up (codes "No free nick found")
    else Attempt.ask (next_letter alt p c)

-- What follows the nick `last` of which the server said `bad`, where `p` has one character less than
-- a nick may have
unfoldable pub next_nick : NickNames → Bytes → Bytes → Bytes → Attempt
unfolding equals letter_attempt last_char
next_nick w p last bad =
    if same last w.conf
    then (if not (is_nil w.alt) && not (same w.conf w.alt)
        then Attempt.ask w.alt
        else Attempt.ask (with_char p b'-'))
    else if same last w.alt && not (same w.alt (with_char p b'-'))
    then Attempt.ask (with_char p b'-')
    else if same last (with_char p b'-') && not (same w.alt (with_char p b'|'))
    then Attempt.ask (with_char p b'|')
    else if same last (with_char p b'|') && not (same w.alt (with_char p b'^'))
    then Attempt.ask (with_char p b'^')
    else if same last (with_char p b'^') && not (same w.alt (with_char p b'a'))
    then Attempt.ask (with_char p b'a')
    else letter_attempt w.alt p (last_char bad)

-- A refused nick that is shorter than the one that was sent tells how long a nick may be.
unfoldable pub learned_len : Bytes → NickState → ℕ
learned_len bad s = if ltb (length bad) (length s.nick) then length bad % 2 ^ 32 else s.max_nick_len

abbrev pub nick_line : Bytes → Bytes
nick_line nick = codes "NICK " ++ nick

unfoldable pub do_attempt : Attempt → NickState → NickState
do_attempt (Attempt.ask nick) s = record s { nick = nick; put = s.put ++ nick_line nick ∷ [] }
do_attempt (Attempt.give_up why) s = record s { told = s.told ++ why ∷ []; quit = true }

-- `SendAltNick`
unfoldable pub send_alt_nick : NickNames → Bytes → NickState → NickState
unfolding next_nick left learned_len do_attempt
send_alt_nick w bad s =
    let len = learned_len bad s in
    let p = left ((len + 2 ^ 32 - 1) % 2 ^ 32) w.conf in
    do_attempt (next_nick w p s.nick bad) (record s { max_nick_len = len })
