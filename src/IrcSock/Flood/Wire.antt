-- ===== src/IrcSock/Flood/Wire.antt =====
-- What the server gets for a message, told apart from the code that writes it.
use znc_playground.IrcSock.Flood.Defs.{
  Outside, is_some, enabled_tags, filter_tags, line_of, put_raw, raw_of, put_answer, lines_for,
}
use znc_playground.IrcSock.Flood.Rounds.{all_lines}
use znc_playground.Message.{Message, to_string}
use znc_playground.Prelude.{
  ◌≡◌, refl, ap, ap₂, Bool, true, false, ◌||◌, List, [], ◌∷◌, ◌++◌, none, some, if◌then◌else◌,
  Bytes, bytes_eq, arith,
}
use znc_playground.StringMap.{StringMap, find}

-- Whether a name is one of those that are supported
abbrev pub is_listed : Bytes → StringMap (Unit {0}) → Bool
is_listed name [] = false
is_listed name ((k, u) ∷ on) = bytes_eq k name || is_listed name on

-- The tags that the server may see: all of them once it takes message tags, else the supported ones
abbrev pub listed_tags : StringMap (Unit {0}) → StringMap Bytes → StringMap Bytes
listed_tags on [] = []
listed_tags on ((k, v) ∷ tags) =
    if is_listed k on then (k, v) ∷ listed_tags on tags else listed_tags on tags

abbrev pub visible : Bool → StringMap (Unit {0}) → Message → Message
visible true on m = m
visible false on m = record m { tags = listed_tags on m.tags }

-- What leaves for a line, if the modules let it pass: the line and its end
abbrev pub sent_line : Bytes → Bool → List Bytes
sent_line line skipped = if skipped then [] else (line ++ (13 ∷ 10 ∷ [])) ∷ []

-- The text of a message
abbrev pub text_of : Message → Bytes
text_of m = elim (to_string false false m) [ some text ↦ text | none ↦ [] ]

-- What leaves for the message `m`: the modules see it with its visible tags, and then its text
abbrev pub wire : Outside → Bool → StringMap (Unit {0}) → Message → List Bytes
wire o all on m =
    let (seen, skipped) = o.on_message (visible all on m) in
    let (line, dropped) = o.on_line (text_of seen) in if skipped then [] else sent_line line dropped

abbrev pub all_wire : Outside → Bool → StringMap (Unit {0}) → List Message → List Bytes
all_wire o all on [] = []
all_wire o all on (m ∷ ms) = wire o all on m ++ all_wire o all on ms

find-is_listed : (k : Bytes) (on : StringMap (Unit {0})) → is_some (find k on) ≡ is_listed k on
unfolding find
find-is_listed k [] = refl
find-is_listed k ((j, u) ∷ on) = ground (arith, find-is_listed k on)

enabled_tags-listed_tags :
    (on : StringMap (Unit {0})) (tags : StringMap Bytes)
    → enabled_tags on tags ≡ listed_tags on tags
unfolding enabled_tags
enabled_tags-listed_tags on [] = refl
enabled_tags-listed_tags on ((k, v) ∷ tags) =
    rw (find-is_listed k on) (rw (enabled_tags-listed_tags on tags) refl)

filter_tags-visible :
    (all : Bool) (on : StringMap (Unit {0})) (m : Message) → filter_tags all on m ≡ visible all on m
unfolding filter_tags
filter_tags-visible true on m = refl
filter_tags-visible false on m =
    ap (λ (t : StringMap Bytes). record m { tags = t }) (enabled_tags-listed_tags on m.tags)

line_of-text_of : (m : Message) → line_of (to_string false false m) ≡ text_of m
line_of-text_of m = elim (to_string false false m) [ some text ↦ refl | none ↦ refl ]

raw_of-sent_line : (line : Bytes) (skipped : Bool) → raw_of (line, skipped) ≡ sent_line line skipped
raw_of-sent_line line true = refl
raw_of-sent_line line false = refl

put_answer-wire :
    (o : Outside) (m : Message) (skipped : Bool)
    → put_answer o (m, skipped)
      ≡ (if skipped then [] else sent_line (o.on_line (text_of m)).0 (o.on_line (text_of m)).1)
unfolding put_answer put_raw
put_answer-wire o m true = refl
put_answer-wire o m false =
    rw (line_of-text_of m) (raw_of-sent_line (o.on_line (text_of m)).0 (o.on_line (text_of m)).1)

lines_for-wire :
    (o : Outside) (all : Bool) (on : StringMap (Unit {0})) (m : Message)
    → lines_for o all on m ≡ wire o all on m
unfolding lines_for
lines_for-wire o all on m =
    rw (filter_tags-visible all on m)
      (put_answer-wire o (o.on_message (visible all on m)).0 (o.on_message (visible all on m)).1)

pub all_lines-wire :
    (o : Outside) (all : Bool) (on : StringMap (Unit {0})) (ms : List Message)
    → all_lines o all on ms ≡ all_wire o all on ms
unfolding all_lines
all_lines-wire o all on [] = refl
all_lines-wire o all on (m ∷ ms) = ap₂ ◌++◌ (lines_for-wire o all on m) (all_lines-wire o all on ms)
