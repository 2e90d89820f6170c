-- ===== src/Message/Defs.antt =====
-- The fields of `CMessage` and the methods that read or set one of them. The time, which is the clock's
-- or a parsed tag, and the pointers to the network, the client and the channel are not modelled.
use znc_playground.Nick.{Nick}
use znc_playground.Prelude.{ℕ, Bool, List, [], leb, if◌then◌else◌, Bytes, length, get_or}
use znc_playground.StringMap.{StringMap, find, insert}
use mathlib.Core.Option

-- `CMessage::Type`
pub data MessageType : Type 0 where
  unknown account action authenticate away capability chg_host ctcp error invite join kick :
      MessageType
  mode nick_change notice numeric part ping pong quit tag_msg text topic wallops : MessageType

pub record Message : Type 0 where
  pub nick : Nick
  pub command : Bytes
  pub params : List Bytes
  pub tags : StringMap Bytes
  pub colon : Bool
  pub kind : MessageType

-- `GetParam`: no parameter reads as the empty text.
unfoldable pub get_param : Message → ℕ → Bytes
get_param m i = if leb (length m.params) i then [] else get_or m.params i []

unfoldable pub get_tag : Message → Bytes → Bytes
unfolding find
get_tag m k = Option.get_or (find k m.tags) []

unfoldable pub set_tag : Message → Bytes → Bytes → Message
unfolding insert
set_tag m k v = record m { tags = insert k v m.tags }
