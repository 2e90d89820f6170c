-- ===== src/IrcSock/Flood/Limit.antt =====
-- How many lines flood protection lets through.
use znc_playground.IrcSock.Flood.Defs.{
  Outside, SendQueue, one_more, is_below, put_answer, put_raw, lines_for, try_send, put_irc,
  put_irc_quick, run_job, new_queue,
}
use znc_playground.IrcSock.Flood.Events.{
  Event, put, quick, tick, after, run, run-append, sends_of, ticks,
}
use znc_playground.IrcSock.Flood.Rounds.{Sent, all_lines, send_loop-Sent}
use znc_playground.Message.{Message}
use znc_playground.Prelude.{
  ℕ, zero, suc, ◌+◌, ◌-◌, ◌^◌, ◌<◌, ◌≤◌, ◌≡◌, ◌⊎◌, inl, inr, refl, ap, ◌∙◌, Bool, true, List, [],
  ◌∷◌, ◌++◌, if◌then◌else◌, length, length-append, take, drop, arith,
}
use znc_playground.Nick.{empty_nick}
use znc_playground.Message.{parse_line}
use native.Mathlib.Nat.{add-zero}
use znc_playground.StringMap.{StringMap}

length-lines_for :
    (o : Outside) (all : Bool) (on : StringMap (Unit {0})) (m : Message)
    → length (lines_for o all on m) ≤ 1
unfolding lines_for put_answer put_raw
length-lines_for o all on m = ground arith

length-all_lines :
    (o : Outside) (all : Bool) (on : StringMap (Unit {0})) (ms : List Message)
    → length (all_lines o all on ms) ≤ length ms
unfolding all_lines
length-all_lines o all on [] = omega arith
length-all_lines o all on (m ∷ ms) = omega (
  arith,
  length-append (lines_for o all on m) (all_lines o all on ms),
  length-lines_for o all on m,
  length-all_lines o all on ms,
)

length-take : (n : ℕ) (ms : List Message) → length (take n ms) + (n - length ms) ≤ n
length-take zero ms = omega arith
length-take (suc n) [] = omega arith
length-take (suc n) (m ∷ ms) = omega (arith, length-take n ms)

-- Either all messages go or all that are allowed do.
drop_or : (n : ℕ) (ms : List Message) → (drop n ms ≡ []) ⊎ (n - length ms ≡ 0)
drop_or zero ms = inr (omega arith)
drop_or (suc n) [] = inl refl
drop_or (suc n) (m ∷ ms) = ground (arith, drop_or n ms)

-- A protected queue with at most `k` lines written and to write, in which nothing waits that may go
pub record IsLimited (burst k : ℕ) (s : SendQueue) : Type 0 where
  pub protected : s.flood_protection ≡ true
  pub same_burst : s.flood_burst ≡ burst
  pub capped : s.sends_allowed ≤ burst
  pub counted : length s.written + s.sends_allowed ≤ k
  pub busy : (s.queue ≡ []) ⊎ (s.sends_allowed ≡ 0)

pub try_send-Sent :
    (o : Outside) (s : SendQueue)
    → s.flood_protection ≡ true
    → s.sends_allowed < 2 ^ 15
    → Sent o s s.sends_allowed s.queue (try_send o s)
unfolding try_send
try_send-Sent o s p h = send_loop-Sent o s s.sends_allowed s.queue refl p refl h

-- What the timer changes before it sends
abbrev pub refilled : SendQueue → SendQueue
refilled s =
    if is_below s.sends_allowed s.flood_burst
    then record s { sends_allowed = one_more s.sends_allowed }
    else s

module _ (o : Outside) (burst : ℕ) (small : burst < 2 ^ 15) where
  try_send-IsLimited :
      (k : ℕ) (s : SendQueue)
      → s.flood_protection ≡ true
      → s.flood_burst ≡ burst
      → s.sends_allowed ≤ burst
      → length s.written + s.sends_allowed ≤ k
      → IsLimited burst k (try_send o s)
  try_send-IsLimited k s p b c w =
      let t : Sent o s s.sends_allowed s.queue (try_send o s) = try_send-Sent o s p (omega arith) in
      let sent = take s.sends_allowed s.queue in
      record {
        protected = t.rules.protection ∙ p;
        same_burst = t.rules.burst ∙ b;
        capped = omega (arith, t.allowed);
        counted = omega (
          arith,
          t.allowed,
          ap length t.lines,
          length-append s.written (all_lines o s.message_tag_cap s.supported_tags sent),
          length-all_lines o s.message_tag_cap s.supported_tags sent,
          length-take s.sends_allowed s.queue,
        );
        busy = elim (drop_or s.sends_allowed s.queue) [
          | inl e ↦ inl (t.queue ∙ e)
          | inr e ↦ inr (t.allowed ∙ e)
        ];
      }

  run_job-IsLimited :
      (k : ℕ) (s : SendQueue) → IsLimited burst k s → IsLimited burst (k + 1) (run_job o s)
  unfolding run_job
  run_job-IsLimited k s h =
      let protected : (refilled s).flood_protection ≡ true = ground (arith, h.protected) in
      let same : (refilled s).flood_burst ≡ burst = ground (arith, h.same_burst) in
      let capped : (refilled s).sends_allowed ≤ burst = ground (arith, h.capped, h.same_burst) in
      let counted : length (refilled s).written + (refilled s).sends_allowed ≤ k + 1 =
        ground (arith, h.counted, h.capped) in
      try_send-IsLimited (k + 1) (refilled s) protected same capped counted

  pub after-IsLimited :
      (k : ℕ) (e : Event) (s : SendQueue)
      → IsLimited burst k s
      → IsLimited burst (k + sends_of e) (after o e s)
  unfolding after put_irc put_irc_quick
  after-IsLimited k (put m) s h =
      try_send-IsLimited (k + 0) (record s { queue = s.queue ++ m ∷ [] }) h.protected h.same_burst
        h.capped (omega (arith, h.counted))
  after-IsLimited k (quick line) s h =
      try_send-IsLimited (k + 0) (record s { queue = parse_line empty_nick line ∷ s.queue })
        h.protected h.same_burst h.capped (omega (arith, h.counted))
  after-IsLimited k tick s h = run_job-IsLimited k s h

  pub run-IsLimited :
      (k : ℕ) (es : List Event) (s : SendQueue)
      → IsLimited burst k s
      → IsLimited burst (k + ticks es) (run o es s)
  unfolding run ticks
  run-IsLimited k [] s h = rw (add-zero k) h
  run-IsLimited k (e ∷ es) s h =
      let same : k + (sends_of e + ticks es) ≡ k + sends_of e + ticks es = omega arith in
      rw same (run-IsLimited (k + sends_of e) es (after o e s) (after-IsLimited k e s h))

  pub start-IsLimited : IsLimited burst burst (new_queue burst true)
  unfolding new_queue
  start-IsLimited = record {
    protected = refl;
    same_burst = refl;
    capped = omega arith;
    counted = omega arith;
    busy = inl refl;
  }

-- With flood protection and a burst below 2^15, whatever is put and however often the timer runs: any
-- stretch of calls `fs` behind others writes as many lines at most as the burst and the runs of the
-- timer in that stretch allow, and a message waits only while none may be sent.
pub run-written :
    (o : Outside) (burst : ℕ) (es fs : List Event)
    → burst < 2 ^ 15
    → (length (run o (es ++ fs) (new_queue burst true)).written
        ≤ length (run o es (new_queue burst true)).written + burst + ticks fs)
      × (((run o (es ++ fs) (new_queue burst true)).queue ≡ [])
          ⊎ ((run o (es ++ fs) (new_queue burst true)).sends_allowed ≡ 0))
run-written o burst es fs small =
    let s = run o es (new_queue burst true) in
    let first =
      run-IsLimited o burst small burst es (new_queue burst true) (start-IsLimited o burst small) in
    let again : IsLimited burst (length s.written + burst) s = record {
      protected = first.protected;
      same_burst = first.same_burst;
      capped = first.capped;
      counted = omega (arith, first.capped);
      busy = first.busy;
    } in
    let later = run-IsLimited o burst small (length s.written + burst) fs s again in
    rw (run-append o es fs (new_queue burst true)) (omega (arith, later.counted), later.busy)
