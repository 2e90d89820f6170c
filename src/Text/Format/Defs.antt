-- ===== src/Text/Format/Defs.antt =====
-- The loop of `NamedFormat`, one character at a time.
use znc_playground.Prelude.{
  ℕ, Bool, true, false, [], ◌∷◌, ◌++◌, Option, none, some, ◌==◌, if◌then◌else◌, Bytes,
}
use znc_playground.StringMap.{StringMap, find}
use znc_playground.Text.Compare.{c_str}

-- The locals `sRet`, `sKey`, `bEscape` and `bParam`
pub record FormatState : Type 0 where
  pub ret : Bytes
  pub key : Bytes
  pub escape : Bool
  pub param : Bool

-- Nothing is written for a key that the map does not have.
abbrev pub value_or_empty : Option Bytes → Bytes
value_or_empty none = []
value_or_empty (some v) = v

-- The two branches of the loop, on the character at `p`
unfoldable pub read_outside : FormatState → ℕ → FormatState
read_outside f c =
    if f.escape
    then record f { ret = f.ret ++ c ∷ []; escape = false }
    else if c == b'\\'
    then record f { escape = true }
    else if c == b'{'
    then record f { param = true; key = [] }
    else record f { ret = f.ret ++ c ∷ [] }

unfoldable pub read_field : StringMap Bytes → FormatState → ℕ → FormatState
unfolding find
read_field values f c =
    if f.escape
    then record f { key = f.key ++ c ∷ []; escape = false }
    else if c == b'\\'
    then record f { escape = true }
    else if c == b'}'
    then record f { param = false; ret = f.ret ++ value_or_empty (find f.key values) }
    else record f { key = f.key ++ c ∷ [] }

unfoldable pub format_loop : StringMap Bytes → FormatState → Bytes → FormatState
unfolding read_outside read_field
format_loop values f [] = f
format_loop values f (c ∷ s) =
    format_loop values (if f.param then read_field values f c else read_outside f c) s

unfoldable pub named_format : StringMap Bytes → Bytes → Bytes
unfolding format_loop c_str
named_format values s =
    (format_loop values (record { ret = []; key = []; escape = false; param = false })
      (c_str s)).ret
