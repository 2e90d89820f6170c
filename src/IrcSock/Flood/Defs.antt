-- ===== src/IrcSock/Flood/Defs.antt =====
-- `PutIRC`, `PutIRCQuick`, `TrySend`, `PutIRCRaw` and the job of `CIRCFloodTimer`. A `short` is its bit
-- pattern.
use znc_playground.Message.{Message, to_string, parse_line}
use znc_playground.Nick.{empty_nick}
use znc_playground.Prelude.{
  ℕ, ◌+◌, ◌-◌, ◌%◌, ◌^◌, Bool, true, false, not, ◌&&◌, ◌||◌, List, [], ◌∷◌, ◌++◌, Option, none,
  some, if◌then◌else◌, ltb, leb, length, Bytes,
}
use znc_playground.StringMap.{StringMap, find}

-- What the modules, the clock and floating point answer: `OnSendToIRCMessage` and `OnSendToIRC` change
-- what they are given and say whether to skip it, `is_slow` says of the size of the queue whether it
-- times the flood rate is over 600, and `now` is the time in milliseconds, for a size of the queue.
pub record Outside : Type 0 where
  pub on_message : Message → Message × Bool
  pub on_line : Bytes → Bytes × Bool
  pub is_slow : ℕ → Bool
  pub now : ℕ → ℕ

-- The part of `CIRCSock` that sends. `written` is what `Write` was given, in its order, and `warned`
-- the sizes of the queue that the user was warned of.
pub record SendQueue : Type 0 where
  pub queue : List Message
  pub sends_allowed : ℕ
  pub flood_burst : ℕ
  pub flood_protection : Bool
  pub last_flood_warned : ℕ
  pub message_tag_cap : Bool
  pub supported_tags : StringMap (Unit {0})
  pub written : List Bytes
  pub warned : List ℕ

-- `m_iSendsAllowed--` and `++`
abbrev pub one_less : ℕ → ℕ
one_less n = (n + 2 ^ 16 - 1) % 2 ^ 16

abbrev pub one_more : ℕ → ℕ
one_more n = (n + 1) % 2 ^ 16

-- `m_iSendsAllowed > 0`
abbrev pub is_positive : ℕ → Bool
is_positive n = ltb 0 n && ltb n (2 ^ 15)

-- `m_iSendsAllowed < m_uFloodBurst`, as `int`
abbrev pub is_below : ℕ → ℕ → Bool
is_below n burst = leb (2 ^ 15) n || ltb n burst

abbrev pub is_some {ℓ} : {A : Type ℓ} → Option A → Bool
is_some none = false
is_some (some a) = true

-- The tags for which `IsTagEnabled`
unfoldable pub enabled_tags : StringMap (Unit {0}) → StringMap Bytes → StringMap Bytes
unfolding find
enabled_tags on [] = []
enabled_tags on ((k, v) ∷ tags) =
    let rest = enabled_tags on tags in if is_some (find k on) then (k, v) ∷ rest else rest

unfoldable pub filter_tags : Bool → StringMap (Unit {0}) → Message → Message
unfolding enabled_tags
filter_tags all on m = if all then m else record m { tags = enabled_tags on m.tags }

-- `PutIRCRaw`
abbrev pub raw_of : Bytes × Bool → List Bytes
raw_of (line, true) = []
raw_of (line, false) = (line ++ (13 ∷ 10 ∷ [])) ∷ []

unfoldable pub put_raw : Outside → Bytes → List Bytes
put_raw o line = raw_of (o.on_line line)

-- `PutIRCRaw(Message.ToString())`, unless a module skips the message. `ToString` reads outside the
-- parameters of no message.
abbrev pub line_of : Option Bytes → Bytes
line_of none = []
line_of (some line) = line

unfoldable pub put_answer : Outside → Message × Bool → List Bytes
unfolding put_raw
put_answer o (m, true) = []
put_answer o (m, false) = put_raw o (line_of (to_string false false m))

-- What is written for a message of the queue
unfoldable pub lines_for : Outside → Bool → StringMap (Unit {0}) → Message → List Bytes
unfolding put_answer filter_tags
lines_for o all on m = put_answer o (o.on_message (filter_tags all on m))

-- The warning behind a message that leaves `n` others
unfoldable pub warn : Outside → ℕ → SendQueue → SendQueue
warn o n s =
    if o.is_slow n && ltb (s.last_flood_warned + 120000) (o.now n)
    then record s { last_flood_warned = o.now n; warned = s.warned ++ n ∷ [] }
    else s

-- A round of the loop for the message `m`, with `rest` behind it
unfoldable pub send_one : Outside → SendQueue → Message → List Message → SendQueue
unfolding warn lines_for
send_one o s m rest = warn o (length rest) (record s {
  queue = rest;
  sends_allowed = one_less s.sends_allowed;
  written = s.written ++ lines_for o s.message_tag_cap s.supported_tags m;
})

-- `TrySend` on the messages of the queue
unfoldable pub send_loop : Outside → SendQueue → List Message → SendQueue
unfolding send_one
send_loop o s [] = s
send_loop o s (m ∷ rest) =
    let later = send_loop o (send_one o s m rest) rest in
    if not s.flood_protection || is_positive s.sends_allowed then later else s

unfoldable pub try_send : Outside → SendQueue → SendQueue
unfolding send_loop
try_send o s = send_loop o s s.queue

-- `PutIRC`
unfoldable pub put_irc : Outside → Message → SendQueue → SendQueue
unfolding try_send
put_irc o m s = try_send o (record s { queue = s.queue ++ m ∷ [] })

-- `PutIRCQuick`
unfoldable pub put_irc_quick : Outside → Bytes → SendQueue → SendQueue
unfolding try_send
put_irc_quick o line s = try_send o (record s { queue = parse_line empty_nick line ∷ s.queue })

-- `RunJob` of the timer
unfoldable pub run_job : Outside → SendQueue → SendQueue
unfolding try_send
run_job o s = try_send o (
    if is_below s.sends_allowed s.flood_burst
    then record s { sends_allowed = one_more s.sends_allowed }
    else s)

-- The constructor, where `burst` is an `unsigned short`
unfoldable pub new_queue : ℕ → Bool → SendQueue
new_queue burst protected = record {
  queue = [];
  sends_allowed = burst;
  flood_burst = burst;
  flood_protection = protected;
  last_flood_warned = 0;
  message_tag_cap = false;
  supported_tags = [];
  written = [];
  warned = [];
}
