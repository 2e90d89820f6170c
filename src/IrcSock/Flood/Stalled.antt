-- ===== src/IrcSock/Flood/Stalled.antt =====
-- A burst that stops the messages.
use znc_playground.IrcSock.Flood.Defs.{
  Outside, SendQueue, is_positive, send_loop, try_send, put_irc, new_queue,
}
use znc_playground.IrcSock.Flood.Events.{put, after, run}
use znc_playground.Message.{Message}
use znc_playground.Prelude.{
  ℕ, ◌^◌, ◌≤◌, ◌≡◌, refl, ap, ◌∙◌, map, true, not, ◌||◌, List, [], ◌∷◌, ◌++◌, if_elim, arith,
}

send_loop-stalled :
    (o : Outside) (s : SendQueue) (q : List Message)
    → s.flood_protection ≡ true
    → 2 ^ 15 ≤ s.sends_allowed
    → send_loop o s q ≡ s
unfolding send_loop
send_loop-stalled o s [] p h = refl
send_loop-stalled o s (m ∷ q) p h =
    if_elim (λ t. t ≡ s) (not s.flood_protection || is_positive s.sends_allowed) _ _
      (λ g. absurd (ground arith)) (λ g. refl)

puts-stalled :
    (o : Outside) (s : SendQueue) (ms : List Message)
    → s.flood_protection ≡ true
    → 2 ^ 15 ≤ s.sends_allowed
    → (run o (map put ms) s).written ≡ s.written
unfolding run after put_irc try_send
puts-stalled o s [] p h = refl
puts-stalled o s (m ∷ ms) p h =
    let t : SendQueue = record s { queue = s.queue ++ m ∷ [] } in
    ap (λ u. (run o (map put ms) u).written) (send_loop-stalled o t t.queue p h)
    ∙ puts-stalled o t ms p h

-- With flood protection and a burst of 2^15 or more, which `short` makes negative, nothing is written
-- for any number of messages until the timer runs.
pub run-stalled :
    (o : Outside) (burst : ℕ) (ms : List Message)
    → 2 ^ 15 ≤ burst
    → (run o (map put ms) (new_queue burst true)).written ≡ []
unfolding new_queue
run-stalled o burst ms h = puts-stalled o (new_queue burst true) ms refl h
