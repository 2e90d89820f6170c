-- ===== src/Message/Parse.antt =====
-- `CMessage::Parse`. The pointer `begin` is the text that stands behind it.
use znc_playground.Message.Defs.{Message, unknown}
use znc_playground.Message.Kind.{init_type}
use znc_playground.Nick
use znc_playground.Nick.{Nick, empty_nick}
use znc_playground.Prelude.{
  ℕ, zero, suc, Bool, true, false, List, [], ◌∷◌, Option, none, some, ◌==◌, if◌then◌else◌, Bytes,
  length,
}
use znc_playground.StringMap.{StringMap, insert}
use znc_playground.Text.Escape.{escape_n, msg_tag, ascii}
use znc_playground.Text.Split.{split_at}

-- The bytes up to the first space, and the text from it on
unfoldable pub take_word : Bytes → Bytes × Bytes
take_word [] = ([], [])
take_word (c ∷ s) =
    let (word, rest) = take_word s in if c == b' ' then ([], c ∷ s) else (c ∷ word, rest)

unfoldable pub skip_spaces : Bytes → Bytes
skip_spaces [] = []
skip_spaces (c ∷ s) = let rest = skip_spaces s in if c == b' ' then rest else c ∷ s

-- The lambda `next_word`: the word, and where `begin` stands then
unfoldable pub next_word : Bytes → Bytes × Bytes
unfolding take_word skip_spaces
next_word s = let (word, rest) = take_word s in (word, skip_spaces rest)

abbrev cut_at : Bool → ℕ → List Bytes → List Bytes
cut_at true c parts = [] ∷ parts
cut_at false c [] = []
cut_at false c (p ∷ parts) = (c ∷ p) ∷ parts

-- `vsTags`: the parts between the semicolons
unfoldable pub split_tags : Bytes → List Bytes
split_tags [] = [] ∷ []
split_tags (c ∷ s) = cut_at (c == b';') c (split_tags s)

-- One part: its key, and its value without the escapes
abbrev key_and_value : Bytes → Option (Bytes × Bytes) → Bytes × Bytes
key_and_value tag none = (tag, [])
key_and_value tag (some (k, v)) = (k, v)

unfoldable pub add_tag : StringMap Bytes → Bytes → StringMap Bytes
unfolding split_at insert escape_n
add_tag tags tag =
    let (k, v) = key_and_value tag (split_at b'=' tag) in insert k (escape_n msg_tag ascii v) tags

unfoldable pub add_tags : StringMap Bytes → List Bytes → StringMap Bytes
unfolding add_tag
add_tags tags [] = tags
add_tags tags (t ∷ ts) = add_tags (add_tag tags t) ts

-- `substr(1)` of a word that is not empty
abbrev pub behind_first : Bytes → Bytes
behind_first [] = []
behind_first (c ∷ s) = s

-- `if (begin < end && *begin == mark)`
abbrev pub begins_with : ℕ → Bytes → Bool
begins_with mark [] = false
begins_with mark (c ∷ s) = c == mark

unfoldable pub parse_tags : Bytes → StringMap Bytes × Bytes
parse_tags s =
    let (word, rest) = next_word s in
    if begins_with b'@' s then (add_tags [] (split_tags (behind_first word)), rest) else ([], s)

unfoldable pub parse_prefix : Nick → Bytes → Nick × Bytes
parse_prefix n s =
    let (word, rest) = next_word s in
    if begins_with b':' s then (Nick.parse n (behind_first word), rest) else (n, s)

-- The parameters, and whether the last one stood behind a colon. Every round takes at least a byte.
unfoldable pub parse_params : ℕ → Bytes → List Bytes × Bool
parse_params fuel [] = ([], false)
parse_params zero (c ∷ s) = ([], false)
parse_params (suc fuel) (c ∷ s) =
    let (word, rest) = next_word (c ∷ s) in
    let later = parse_params fuel rest in
    if c == b':' then (s ∷ [], true) else (word ∷ later.0, later.1)

-- `Parse`, called on a message whose nick is `n`
unfoldable pub parse_line : Nick → Bytes → Message
parse_line n s =
    let (tags, s1) = parse_tags s in
    let (nick, s2) = parse_prefix n s1 in
    let (command, s3) = next_word s2 in
    let (params, colon) = parse_params (length s3) s3 in
    init_type (record {
      nick = nick;
      command = command;
      params = params;
      tags = tags;
      colon = colon;
      kind = unknown;
    })
