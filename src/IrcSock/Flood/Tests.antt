-- ===== src/IrcSock/Flood/Tests.antt =====
-- Runs of the queue, and instances of the theorems about it.
use znc_playground.IrcSock.Flood.Defs.{Outside, new_queue}
use znc_playground.IrcSock.Flood.Events.{Event, put, quick, tick, run, ticks, puts}
use znc_playground.IrcSock.Flood.Limit.{run-written}
use znc_playground.IrcSock.Flood.Order.{started, run-puts}
use znc_playground.IrcSock.Flood.Stalled.{run-stalled}
use znc_playground.IrcSock.Flood.Wire.{wire, all_wire}
use znc_playground.StringMap.{StringMap}
use znc_playground.Message.{Message, MessageType, parse_line, to_string, init_type}
use znc_playground.Message.Parse.{parse_params, next_word, parse_prefix, parse_tags}
use znc_playground.Nick.{empty_nick}
use znc_playground.Prelude.{
  ◌+◌, ◌≤◌, ◌≡◌, ◌⊎◌, refl, true, false, List, [], ◌∷◌, ◌++◌, map, codes, length, replicate, arith,
}

abbrev alone : Outside
alone = record {
  on_message = λ m. (m, false);
  on_line = λ line. (line, false);
  is_slow = λ n. false;
  now = λ n. 0;
}

abbrev ping : Message
ping = parse_line empty_nick (codes "PING a")

abbrev three : List Event
three = put ping ∷ put ping ∷ quick (codes "PONG b") ∷ tick ∷ []

-- The message that is put quickly overtakes the one that waits.
run-three :
    (run alone three (new_queue 1 true)).written
    ≡ (codes "PING a" ++ (13 ∷ 10 ∷ [])) ∷ (codes "PONG b" ++ (13 ∷ 10 ∷ [])) ∷ []
unfolding run new_queue parse_line to_string init_type parse_params next_word parse_prefix
    parse_tags
run-three = refl

run-written_example :
    (length (run alone (three ++ three) (new_queue 2 true)).written
      ≤ length (run alone three (new_queue 2 true)).written + 2 + ticks three)
    × (((run alone (three ++ three) (new_queue 2 true)).queue ≡ [])
        ⊎ ((run alone (three ++ three) (new_queue 2 true)).sends_allowed ≡ 0))
run-written_example = run-written alone 2 three three (omega arith)

abbrev tagged : Message
tagged = record {
  nick = empty_nick;
  command = codes "PING";
  params = codes "a" ∷ [];
  tags = (codes "b", codes "1") ∷ (codes "c", codes "2") ∷ [];
  colon = false;
  kind = MessageType.ping;
}

abbrev only_c : StringMap (Unit {0})
only_c = (codes "c", tt) ∷ []

-- The server gets the tag that is supported and not the other.
wire_run : wire alone false only_c tagged ≡ (codes "@c=2 PING a" ++ (13 ∷ 10 ∷ [])) ∷ []
unfolding to_string
wire_run = refl

abbrev two_puts : List Event
two_puts = put tagged ∷ tick ∷ put ping ∷ []

run-puts_example :
    (run alone (two_puts ++ replicate 2 tick) (started 1 false only_c)).written
    ≡ all_wire alone false only_c (tagged ∷ ping ∷ [])
unfolding puts
run-puts_example =
    run-puts alone 1 false only_c two_puts 2 (omega arith) (omega arith) (refl, (refl, (refl, tt)))
      (omega arith)

run-stalled_example : (run alone (map put (ping ∷ ping ∷ [])) (new_queue 40000 true)).written ≡ []
run-stalled_example = run-stalled alone 40000 (ping ∷ ping ∷ []) (omega arith)
