-- ===== src/IrcSock/AltNick/Tests.antt =====
-- Runs of the attempts, and instances of the theorems about them.
use znc_playground.IrcSock.AltNick.Defs.{NickNames, send_alt_nick, nick_line}
use znc_playground.IrcSock.AltNick.Order.{nick_order, refuse-order}
use znc_playground.IrcSock.AltNick.Refused.{refuse, sent}
use znc_playground.IrcSock.AltNick.Stuck.{with_z, refuse-stuck}
use znc_playground.Prelude.{◌≡◌, refl, true, false, [], length, map, codes, arith}
use znc_playground.Text.Compare.{equals}

abbrev joe : NickNames
joe = record { conf = codes "joe"; alt = codes "joe-" }

-- The other nick comes first, and is not asked for again.
nick_order_run : length (nick_order joe) ≡ 29
unfolding nick_order equals
nick_order_run = refl

-- A server that cuts nicks tells how long they may be.
cut_nick_run : (send_alt_nick joe (codes "jo") (sent 9 (codes "joe") [])).max_nick_len ≡ 2
unfolding send_alt_nick
cut_nick_run = refl

-- A nick as long as nicks may be, with a minus at its end, is asked for again and again.
minus_end_run :
    (send_alt_nick
      (record { conf = codes "abcdefgh-"; alt = [] })
      (codes "abcdefgh-")
      (sent 9 (codes "abcdefgh-") [])).nick
    ≡ codes "abcdefgh-"
unfolding send_alt_nick
minus_end_run = refl

refuse-order_example :
    ((refuse joe 31 (sent 9 (codes "joe") [])).quit ≡ true)
    × ((refuse joe 31 (sent 9 (codes "joe") [])).put ≡ map nick_line (nick_order joe))
unfolding equals
refuse-order_example =
    refuse-order joe 9 (ground arith) (omega arith) (omega arith) (refl, refl, refl, refl) [] 31
      (omega arith)

refuse-stuck_example :
    ((refuse (with_z (codes "joe")) 1000 (sent 9 (codes "joe") [])).quit ≡ false)
    × (length (refuse (with_z (codes "joe")) 1000 (sent 9 (codes "joe") [])).put ≡ 1000)
refuse-stuck_example =
    refuse-stuck (codes "joe") 9 (ground arith) (omega arith) (omega arith) [] 1000
