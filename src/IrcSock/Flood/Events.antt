-- ===== src/IrcSock/Flood/Events.antt =====
-- Calls of the connection and of its timer, one after the other.
use znc_playground.IrcSock.Flood.Defs.{Outside, SendQueue, put_irc, put_irc_quick, run_job}
use znc_playground.Message.{Message}
use znc_playground.Prelude.{ℕ, ◌+◌, ◌≡◌, refl, List, [], ◌∷◌, ◌++◌, Bytes}

pub data Event : Type 0 where
  put : Message → Event
  quick : Bytes → Event
  tick : Event

unfoldable pub after : Outside → Event → SendQueue → SendQueue
unfolding put_irc put_irc_quick run_job
after o (put m) s = put_irc o m s
after o (quick line) s = put_irc_quick o line s
after o tick s = run_job o s

unfoldable pub run : Outside → List Event → SendQueue → SendQueue
unfolding after
run o [] s = s
run o (e ∷ es) s = run o es (after o e s)

pub run-append :
    (o : Outside) (es fs : List Event) (s : SendQueue) → run o (es ++ fs) s ≡ run o fs (run o es s)
unfolding run
run-append o [] fs s = refl
run-append o (e ∷ es) fs s = run-append o es fs (after o e s)

abbrev pub sends_of : Event → ℕ
sends_of tick = 1
sends_of other = 0

unfoldable pub ticks : List Event → ℕ
ticks [] = 0
ticks (e ∷ es) = sends_of e + ticks es

unfoldable pub puts : List Event → List Message
puts [] = []
puts (put m ∷ es) = m ∷ puts es
puts (quick line ∷ es) = puts es
puts (tick ∷ es) = puts es
