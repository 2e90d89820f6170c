-- ===== src/Buffer/Defs.antt =====
-- The buffer and its operations. Each returns the new buffer and the value that the source returns.
use znc_playground.Message.{Message, parse_line}
use znc_playground.Message.Defs.{unknown}
use znc_playground.Nick
use znc_playground.Nick.{Nick, empty_nick}
use znc_playground.Prelude.{
  ℕ, suc, Bool, true, false, not, ◌&&◌, ◌||◌, List, [], ◌∷◌, ◌++◌, leb, ltb, ◌==◌, if◌then◌else◌,
  Bytes, bytes_eq, length,
}
use znc_playground.StringMap.{StringMap}
use znc_playground.Text.Compare.{equals, insensitive}

-- `CBufLine`
pub record BufLine : Type 0 where
  pub format : Message
  pub text : Bytes

-- The list of lines is the deque, its oldest line first.
pub record Buffer : Type 0 where
  pub lines : List BufLine
  pub line_count : ℕ

-- `CBuffer(uLineCount)`
abbrev pub new_buffer : ℕ → Buffer
new_buffer n = record { lines = []; line_count = n }

-- `while (size() >= n) erase(begin());`
unfoldable pub erase_while_full : ℕ → List BufLine → List BufLine
erase_while_full n [] = []
erase_while_full n (l ∷ ls) =
    let rest = erase_while_full n ls in if leb n (suc (length ls)) then rest else l ∷ ls

-- `while (size() > n) erase(begin());`
unfoldable pub erase_while_over : ℕ → List BufLine → List BufLine
erase_while_over n [] = []
erase_while_over n (l ∷ ls) =
    let rest = erase_while_over n ls in if ltb n (suc (length ls)) then rest else l ∷ ls

unfoldable pub add_line : Buffer → Message → Bytes → Buffer × ℕ
unfolding erase_while_full
add_line b format text =
    let lines =
      erase_while_full b.line_count b.lines ++ record { format = format; text = text } ∷ [] in
    if b.line_count == 0 then (b, 0) else (record b { lines = lines }, length lines)

-- `Line.GetCommand().Equals(sCommand)` for some line
unfoldable pub has_command : Bytes → List BufLine → Bool
unfolding equals
has_command command [] = false
has_command command (l ∷ ls) = equals insensitive l.format.command command || has_command command ls

-- The first such line is replaced.
unfoldable pub replace_command : Bytes → BufLine → List BufLine → List BufLine
unfolding equals
replace_command command new [] = []
replace_command command new (l ∷ ls) =
    if equals insensitive l.format.command command
    then new ∷ ls
    else l ∷ replace_command command new ls

unfoldable pub update_line : Buffer → Bytes → Message → Bytes → Buffer × ℕ
unfolding has_command replace_command add_line
update_line b command format text =
    let new : BufLine = record { format = format; text = text } in
    if has_command command b.lines
    then (record b { lines = replace_command command new b.lines }, length b.lines)
    else add_line b format text

-- `m_vsParams == Other.GetParams()`
unfoldable pub params_eq : List Bytes → List Bytes → Bool
unfolding bytes_eq
params_eq [] [] = true
params_eq (p ∷ ps) (q ∷ qs) = bytes_eq p q && params_eq ps qs
params_eq _ _ = false

-- `CMessage::Equals`
unfoldable pub message_equals : Message → Message → Bool
unfolding equals params_eq Nick.nick_equals
message_equals m other =
    Nick.nick_equals m.nick other.nick.nick
    && equals insensitive m.command other.command
    && params_eq m.params other.params

unfoldable pub has_equal : Message → List BufLine → Bool
unfolding message_equals
has_equal format [] = false
has_equal format (l ∷ ls) = message_equals l.format format || has_equal format ls

unfoldable pub update_exact_line : Buffer → Message → Bytes → Buffer × ℕ
unfolding has_equal add_line
update_exact_line b format text =
    if has_equal format b.lines then (b, length b.lines) else add_line b format text

-- The overloads that take the format as a text. The time stamp of a line is not modelled.
unfoldable pub add_line_text : Buffer → Bytes → Bytes → StringMap Bytes → Buffer × ℕ
unfolding add_line
add_line_text b format text tags =
    add_line b (record (parse_line empty_nick format) { tags = tags }) text

unfoldable pub update_line_text : Buffer → Bytes → Bytes → Bytes → Buffer × ℕ
unfolding update_line
update_line_text b match format text =
    update_line b (parse_line empty_nick match).command (parse_line empty_nick format) text

-- `CMessage(sFormat, sText)`: of the constructors only the one of a nick and a command takes two
-- texts, so the format becomes the nick and the text the command.
abbrev pub message_of_texts : Bytes → Bytes → Message
message_of_texts format text = record {
  nick = Nick.parse empty_nick format;
  command = text;
  params = [];
  tags = [];
  colon = false;
  kind = unknown;
}

unfoldable pub update_exact_line_text : Buffer → Bytes → Bytes → Buffer × ℕ
unfolding update_exact_line
update_exact_line_text b format text = update_exact_line b (message_of_texts format text) []

-- `max_size` is `CZNC::Get().GetMaxBufferSize()`.
unfoldable pub set_line_count : ℕ → Buffer → ℕ → Bool → Buffer × Bool
unfolding erase_while_over
set_line_count max_size b n force =
    if not force && ltb max_size n
    then (b, false)
    else (record { lines = erase_while_over n b.lines; line_count = n }, true)

-- `Clear`
abbrev pub clear : Buffer → Buffer
clear b = record b { lines = [] }
