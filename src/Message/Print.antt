-- ===== src/Message/Print.antt =====
-- `CMessage::ToString` and `GetParamsColon`.
use znc_playground.Message.Defs.{Message}
use znc_playground.Nick.{get_host_mask}
use znc_playground.Prelude.{
  ℕ, zero, suc, ◌+◌, ◌-◌, ◌%◌, ◌^◌, Bool, true, false, ◌&&◌, ◌||◌, List, [], ◌∷◌, ◌++◌, Option,
  none, some, ◌==◌, ltb, if◌then◌else◌, Bytes, codes, length, get_elem?,
}
use znc_playground.StringMap.{StringMap}
use znc_playground.Text.Compare.{insensitive, starts_with, contains, join}
use znc_playground.Text.Escape.{escape_n, msg_tag, ascii}
use mathlib.Core.Option

-- `s.empty()`
unfoldable pub is_empty : Bytes → Bool
is_empty [] = true
is_empty (c ∷ s) = false

-- The test that puts a colon before the last parameter
unfoldable pub wants_colon : Bool → Bytes → Bool
unfolding is_empty starts_with contains
wants_colon colon s =
    colon
    || is_empty s
    || starts_with insensitive s (codes ":")
    || contains insensitive s (codes " ")

-- `sParam` for one round of the loop
unfoldable pub shown_param : Message → ℕ → Bytes → Bytes
unfolding wants_colon
shown_param m i s = if i == length m.params - 1 && wants_colon m.colon s then b':' ∷ s else s

-- The loop, for `n` parameters from the index `i`. `none` is a read behind the end of the vector.
unfoldable pub shown_params : Message → ℕ → ℕ → Option (List Bytes)
unfolding shown_param
shown_params m zero i = some []
shown_params m (suc n) i = elim (get_elem? m.params i) [
  | none ↦ none
  | some s ↦ Option.map (◌∷◌ (shown_param m i s)) (shown_params m n (i + 1))
]

-- `size_t` has 64 bits and `unsigned int` 32.
abbrev pub size_mod : ℕ
size_mod = 2 ^ 64

abbrev pub uint_mod : ℕ
uint_mod = 2 ^ 32

-- `if (uLen > m_vsParams.size() - uIdx - 1) uLen = m_vsParams.size() - uIdx;`
unfoldable pub clamped_len : ℕ → ℕ → ℕ → ℕ
clamped_len size i n =
    if ltb ((size + size_mod - i + size_mod - 1) % size_mod) n
    then (size + size_mod - i) % size_mod % uint_mod
    else n

unfoldable pub get_params_colon : Message → ℕ → ℕ → Option Bytes
unfolding clamped_len shown_params join
get_params_colon m i n =
    if length m.params == 0 || n == 0
    then some []
    else Option.map (join (codes " "))
        (shown_params m ((i + clamped_len (length m.params) i n) % uint_mod - i) i)

-- `if (!sMessage.empty()) sMessage += " "; sMessage += part;`
unfoldable pub add_part : Bytes → Bytes → Bytes
add_part [] part = part
add_part (c ∷ s) part = (c ∷ s) ++ b' ' ∷ part

abbrev pub tag_value : Bytes → Bytes
tag_value [] = []
tag_value (c ∷ s) = b'=' ∷ escape_n ascii msg_tag (c ∷ s)

-- `sTags`, the loop over the map
unfoldable pub add_tag_texts : Bytes → StringMap Bytes → Bytes
unfolding escape_n
add_tag_texts out [] = out
add_tag_texts out ((k, v) ∷ tags) =
    add_tag_texts ((if is_empty out then [] else out ++ codes ";") ++ (k ++ tag_value v)) tags

abbrev pub tags_part : StringMap Bytes → Bytes
tags_part [] = []
tags_part (t ∷ tags) = b'@' ∷ add_tag_texts [] (t ∷ tags)

abbrev pub add_prefix : Bytes → Bytes → Bytes
add_prefix out [] = out
add_prefix out (c ∷ mask) = add_part out (b':' ∷ c ∷ mask)

abbrev pub add_command : Bytes → Bytes → Bytes
add_command out [] = out
add_command out (c ∷ command) = add_part out (c ∷ command)

unfoldable pub add_params : Bytes → Message → List Bytes → Option Bytes
unfolding get_params_colon add_part
add_params out m [] = some out
add_params out m (p ∷ ps) = Option.map (add_part out) (get_params_colon m 0 (uint_mod - 1))

-- `ToString`, with the two flags of `FormatFlags`. `none` is a fault of `GetParamsColon`.
unfoldable pub to_string : Bool → Bool → Message → Option Bytes
unfolding add_tag_texts add_params add_part get_host_mask is_empty
to_string exclude_tags exclude_prefix m =
    let tagged = if exclude_tags then [] else tags_part m.tags in
    let prefixed = if exclude_prefix then tagged else add_prefix tagged (get_host_mask m.nick) in
    add_params (add_command prefixed m.command) m m.params
