-- ===== src/IrcSock/Support/Tests.antt =====
-- Runs of the replies, and instances of the theorems about them.
use znc_playground.Channel.{get_perm_from_mode, get_mode_type}
use znc_playground.IrcSock.Support.Announced.{parse_isupport-tables}
use znc_playground.IrcSock.Support.Reply.{prefix_param, chan_modes_param}
use znc_playground.IrcSock.Support.Defs.{
  parse_isupport, get_isupport, get_mode_from_perm, mode_group, first_support,
}
use znc_playground.IrcSock.Support.Reach.{start, reply, IsSound, Reached-IsSound}
use znc_playground.IrcSock.Support.Tables.{type_of}
use znc_playground.Message.{Message, MessageType}
use znc_playground.Nick.{empty_nick}
use znc_playground.Text.Compare.{equals}
use znc_playground.Text.Token.{token}
use znc_playground.Prelude.{◌≡◌, refl, true, List, [], ◌∷◌, Bytes, codes, arith}

abbrev reply_005 : List Bytes → Message
reply_005 params = record {
  nick = empty_nick;
  command = codes "005";
  params = params;
  tags = [];
  colon = true;
  kind = MessageType.numeric;
}

abbrev modes_reply : Message
modes_reply = reply_005 (
    codes "me"
    ∷ codes "NETWORK=x"
    ∷ prefix_param (codes "ov") (codes "@+")
    ∷ chan_modes_param (codes "b") (codes "k") (codes "l") (codes "imn")
    ∷ codes "NICKLEN=30"
    ∷ codes "are supported"
    ∷ [])

nick_len_run :
    (parse_isupport
      (reply_005 (codes "me" ∷ codes "NICKLEN=30" ∷ codes "NAMESX" ∷ []))
      (first_support [])).max_nick_len
    ≡ 30
unfolding parse_isupport
nick_len_run = refl

get_isupport_run :
    get_isupport
      (codes "network")
      []
      (parse_isupport (reply_005 (codes "me" ∷ codes "NETWORK=x=y" ∷ [] ∷ [])) (first_support []))
    ≡ codes "x=y"
unfolding parse_isupport get_isupport
get_isupport_run = refl

get_mode_from_perm_run : get_mode_from_perm (first_support []).table b'@' ≡ b'o'
unfolding get_mode_from_perm
get_mode_from_perm_run = refl

-- An empty group is passed over, and the next one stands in its place.
empty_group_run : mode_group 0 (codes ",k,l,imn") ≡ codes "k"
unfolding mode_group token
empty_group_run = refl

parse_isupport-tables_example :
    (get_perm_from_mode (parse_isupport modes_reply (first_support [])).table b'v' ≡ b'+')
    × (get_perm_from_mode (parse_isupport modes_reply (first_support [])).table b'h' ≡ 0)
    × (get_mode_type (parse_isupport modes_reply (first_support [])).table b'k'
        ≡ type_of (codes "b") (codes "k") (codes "l") (codes "imn") b'k')
unfolding equals token
parse_isupport-tables_example =
    parse_isupport-tables modes_reply (first_support []) (codes "NETWORK=x" ∷ []) []
      (codes "NICKLEN=30" ∷ []) (codes "me") (codes "are supported") (codes "o") [] (codes "@") []
      (codes "b") (codes "k") (codes "l") (codes "imn") b'v' b'+' b'h' b'k' ((refl, refl, refl), tt)
      tt ((refl, refl, refl), tt) (ground arith) refl (ground arith) (ground arith) (ground arith)
      (ground arith) refl

Reached-IsSound_example : IsSound (parse_isupport modes_reply (first_support []))
Reached-IsSound_example = Reached-IsSound (reply (start []) modes_reply)
