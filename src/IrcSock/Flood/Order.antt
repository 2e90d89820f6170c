-- ===== src/IrcSock/Flood/Order.antt =====
-- Which messages are written, and in which order.
use znc_playground.IrcSock.Flood.Defs.{
  Outside, SendQueue, is_below, try_send, put_irc, run_job, new_queue,
}
use znc_playground.IrcSock.Flood.Events.{
  Event, put, quick, tick, after, run, run-append, puts, ticks,
}
use znc_playground.IrcSock.Flood.Limit.{
  IsLimited, refilled, try_send-Sent, run-IsLimited, after-IsLimited,
}
use znc_playground.IrcSock.Flood.Rounds.{Sent, all_lines}
use znc_playground.IrcSock.Flood.Wire.{all_wire, all_lines-wire}
use znc_playground.Message.{Message}
use znc_playground.Prelude.{
  ℕ, zero, suc, ◌+◌, ◌-◌, ◌^◌, ◌<◌, ◌≤◌, ◌≡◌, refl, sym, ap, ap₂, ◌∙◌, inl, Bool, true, false, List,
  [], ◌∷◌, ◌++◌, append-nil, append_assoc, if_elim, length, length-append, take, drop, replicate,
  length-drop, All, arith,
}
use znc_playground.StringMap.{StringMap}

all_lines-append :
    (o : Outside) (all : Bool) (on : StringMap (Unit {0})) (ms ns : List Message)
    → all_lines o all on (ms ++ ns) ≡ all_lines o all on ms ++ all_lines o all on ns
unfolding all_lines
all_lines-append o all on [] ns = refl
all_lines-append o all on (m ∷ ms) ns = simp (all_lines-append o all on ms ns, append_assoc)

take-drop : (n : ℕ) (ms : List Message) → take n ms ++ drop n ms ≡ ms
take-drop zero ms = refl
take-drop (suc n) [] = refl
take-drop (suc n) (m ∷ ms) = ap (◌∷◌ m) (take-drop n ms)

abbrev pub is_quick : Event → Bool
is_quick (quick line) = true
is_quick other = false

-- The queue with the tags that it lets through
abbrev pub started : ℕ → Bool → StringMap (Unit {0}) → SendQueue
started burst all on = record (new_queue burst true) { message_tag_cap = all; supported_tags = on }

-- The messages `ms` came one after the other; the first of them are written and the others wait.
record Ordered (o : Outside) (all : Bool) (on : StringMap (Unit {0})) (ms : List Message)
    (s : SendQueue) : Type 0 where
  all_tags : s.message_tag_cap ≡ all
  tags : s.supported_tags ≡ on
  gone : List Message
  whole : gone ++ s.queue ≡ ms
  lines : s.written ≡ all_lines o all on gone

module _ (o : Outside) (all : Bool) (on : StringMap (Unit {0})) where
  try_send-Ordered :
      (ms : List Message) (s : SendQueue)
      → s.flood_protection ≡ true
      → s.sends_allowed < 2 ^ 15
      → Ordered o all on ms s
      → Ordered o all on ms (try_send o s)
  try_send-Ordered ms s p h d =
      let t : Sent o s s.sends_allowed s.queue (try_send o s) = try_send-Sent o s p h in
      let sent = take s.sends_allowed s.queue in
      record {
        all_tags = t.rules.all_tags ∙ d.all_tags;
        tags = t.rules.tags ∙ d.tags;
        gone = d.gone ++ sent;
        whole =
            ap (λ q. (d.gone ++ sent) ++ q) t.queue
            ∙ append_assoc d.gone sent (drop s.sends_allowed s.queue)
            ∙ ap (◌++◌ d.gone) (take-drop s.sends_allowed s.queue)
            ∙ d.whole;
        lines =
            t.lines
            ∙ ap₂ ◌++◌ d.lines (ap₂ (λ a b. all_lines o a b sent) d.all_tags d.tags)
            ∙ sym (all_lines-append o all on d.gone sent);
      }

  module _ (burst : ℕ) (small : burst < 2 ^ 15) where
    put-Ordered :
        (k : ℕ) (ms : List Message) (m : Message) (s : SendQueue)
        → IsLimited burst k s
        → Ordered o all on ms s
        → Ordered o all on (ms ++ m ∷ []) (put_irc o m s)
    unfolding put_irc
    put-Ordered k ms m s h d =
        try_send-Ordered (ms ++ m ∷ []) (record s { queue = s.queue ++ m ∷ [] }) h.protected
          (omega (arith, h.capped))
          (record {
            all_tags = d.all_tags;
            tags = d.tags;
            gone = d.gone;
            whole = sym (append_assoc d.gone s.queue (m ∷ [])) ∙ ap (λ q. q ++ m ∷ []) d.whole;
            lines = d.lines;
          })

    run_job-Ordered :
        (k : ℕ) (ms : List Message) (s : SendQueue)
        → IsLimited burst k s
        → Ordered o all on ms s
        → Ordered o all on ms (run_job o s)
    unfolding run_job
    run_job-Ordered k ms s h d =
        let same : Ordered o all on ms (refilled s) =
          if_elim (Ordered o all on ms) (is_below s.sends_allowed s.flood_burst) _ _
            (λ e. record {
              all_tags = d.all_tags;
              tags = d.tags;
              gone = d.gone;
              whole = d.whole;
              lines = d.lines;
            })
            (λ e. d) in
        let protected : (refilled s).flood_protection ≡ true = ground (arith, h.protected) in
        let few : (refilled s).sends_allowed < 2 ^ 15 = ground (arith, h.capped, h.same_burst) in
        try_send-Ordered ms (refilled s) protected few same

    run-Ordered :
        (k : ℕ) (ms : List Message) (es : List Event) (s : SendQueue)
        → All (λ e. is_quick e ≡ false) es
        → IsLimited burst k s
        → Ordered o all on ms s
        → Ordered o all on (ms ++ puts es) (run o es s)
    unfolding run puts after
    run-Ordered k ms [] s q h d = rw (append-nil ms) d
    run-Ordered k ms (put m ∷ es) s q h d = rw (sym (append_assoc ms (m ∷ []) (puts es))) (
        run-Ordered (k + 0) (ms ++ m ∷ []) es (put_irc o m s) q.1
          (after-IsLimited o burst small k (put m) s h) (put-Ordered k ms m s h d))
    run-Ordered k ms (quick line ∷ es) s q h d = absurd (ground arith)
    run-Ordered k ms (tick ∷ es) s q h d =
        run-Ordered (k + 1) ms es (run_job o s) q.1 (after-IsLimited o burst small k tick s h)
          (run_job-Ordered k ms s h d)

-- Each run of the timer lets a message through.
run_job-drains :
    (o : Outside) (burst k : ℕ) (s : SendQueue)
    → burst < 2 ^ 15
    → 1 ≤ burst
    → IsLimited burst k s
    → length (run_job o s).queue ≤ length s.queue - 1
unfolding run_job
run_job-drains o burst k s small one h =
    let protected : (refilled s).flood_protection ≡ true = ground (arith, h.protected) in
    let few : (refilled s).sends_allowed < 2 ^ 15 = ground (arith, h.capped, h.same_burst) in
    let some_allowed : 1 ≤ (refilled s).sends_allowed = ground (arith, h.capped, h.same_burst) in
    let same : (refilled s).queue ≡ s.queue = ground arith in
    let t : Sent o (refilled s) (refilled s).sends_allowed (refilled s).queue
        (try_send o (refilled s)) =
      try_send-Sent o (refilled s) protected few in
    omega (
      arith,
      ap length t.queue,
      ap length same,
      length-drop (refilled s).sends_allowed (refilled s).queue,
    )

ticks-drain :
    (o : Outside) (burst k n : ℕ) (s : SendQueue)
    → burst < 2 ^ 15
    → 1 ≤ burst
    → IsLimited burst k s
    → length s.queue ≤ n
    → length (run o (replicate n tick) s).queue ≡ 0
unfolding run after
ticks-drain o burst k zero s small one h e = omega arith
ticks-drain o burst k (suc n) s small one h e =
    ticks-drain o burst (k + 1) n (run_job o s) small one (after-IsLimited o burst small k tick s h)
      (omega (arith, run_job-drains o burst k s small one h))

started-Ordered :
    (o : Outside) (burst : ℕ) (all : Bool) (on : StringMap (Unit {0}))
    → Ordered o all on [] (started burst all on)
unfolding new_queue all_lines
started-Ordered o burst all on = record {
  all_tags = refl;
  tags = refl;
  gone = [];
  whole = refl;
  lines = refl;
}

started-IsLimited :
    (burst : ℕ) (all : Bool) (on : StringMap (Unit {0}))
    → IsLimited burst burst (started burst all on)
unfolding new_queue
started-IsLimited burst all on = record {
  protected = refl;
  same_burst = refl;
  capped = omega arith;
  counted = omega arith;
  busy = inl refl;
}

only_ticks : (n : ℕ) → All (λ e. is_quick e ≡ false) (replicate n tick)
only_ticks zero = tt
only_ticks (suc n) = (refl, only_ticks n)

puts-replicate : (n : ℕ) → puts (replicate n tick) ≡ []
unfolding puts
puts-replicate zero = refl
puts-replicate (suc n) = puts-replicate n

all_gone : (gone q ms : List Message) → length q ≡ 0 → gone ++ q ≡ ms → gone ≡ ms
all_gone gone [] ms e w = sym (append-nil gone) ∙ w
all_gone gone (m ∷ q) ms e w = absurd (omega arith)

-- With flood protection and a burst from 1 to 2^15 - 1: after calls of PutIRC and runs of the timer in
-- any order, and then as many runs of the timer as there were messages, what is written is, in the
-- order in which the messages were put, the text of each with its line end. The modules see the
-- message with all its tags if the server takes message tags, else with the supported ones, and then
-- its text, and what they skip is not written.
pub run-puts :
    (o : Outside) (burst : ℕ) (all : Bool) (on : StringMap (Unit {0})) (es : List Event) (n : ℕ)
    → burst < 2 ^ 15
    → 1 ≤ burst
    → All (λ e. is_quick e ≡ false) es
    → length (puts es) ≤ n
    → (run o (es ++ replicate n tick) (started burst all on)).written ≡ all_wire o all on (puts es)
run-puts o burst all on es n small one q enough =
    let start = started burst all on in
    let s = run o es start in
    let first = started-IsLimited burst all on in
    let h = run-IsLimited o burst small burst es start first in
    let d =
      run-Ordered o all on burst small burst [] es start q first (started-Ordered o burst all on) in
    let drained =
      ticks-drain o burst (burst + ticks es) n s small one h
        (omega (arith, ap length d.whole, length-append d.gone s.queue)) in
    let t =
      run-Ordered o all on burst small (burst + ticks es) (puts es) (replicate n tick) s
        (only_ticks n) h d in
    rw (run-append o es (replicate n tick) start) (
      t.lines
      ∙ ap (all_lines o all on) (
          all_gone t.gone (run o (replicate n tick) s).queue _ drained t.whole
          ∙ ap (◌++◌ (puts es)) (puts-replicate n)
          ∙ append-nil (puts es))
      ∙ all_lines-wire o all on (puts es))
