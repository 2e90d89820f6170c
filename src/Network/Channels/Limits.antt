-- ===== src/Network/Channels/Limits.antt =====
-- How many channels `JoinChans` picks, which ones, and how often.
use znc_playground.Network.Channels.Defs.{ListedChan}
use znc_playground.Network.Channels.Pick.{
  JoinRules, inc_join_tries, join_chan, Picked, waiting_at, after_join, visit, pick_loop,
  pick_chans,
}
use znc_playground.Prelude.{
  ℕ, zero, suc, ◌+◌, ◌-◌, ◌%◌, ◌^◌, ◌≤◌, ◌≡◌, Bool, true, false, not, ◌&&◌, ◌||◌, List, [], ◌∷◌,
  Option, none, some, leb, ◌==◌, length, set, All, arith, if_elim,
}

module _ (r : JoinRules) where
  abbrev IsTried : ListedChan → Type 0
  IsTried c = c.join_tries ≤ r.join_tries

  -- A channel that may be joined, and has not been tried too often
  abbrev pub IsPicked : ListedChan → Type 0
  IsPicked c = (c.is_on ≡ false) × (c.disabled ≡ false) × IsTried c

  -- What holds behind the loop, with `joins` channels left to join before it
  abbrev IsLimited : ℕ → Picked → Type 0
  IsLimited joins p = (length p.joined ≤ joins) × All IsPicked p.joined × All IsTried p.chans

  All-set :
      (i : ℕ) (c : ListedChan) (chans : List ListedChan)
      → IsTried c
      → All IsTried chans
      → All IsTried (set chans i c)
  All-set i c [] p h = h
  All-set zero c (d ∷ chans) p h = (p, h.1)
  All-set (suc i) c (d ∷ chans) p h = (h.0, All-set i c chans p h.1)

  abbrev IsWaiting : Option ListedChan → Type 0
  IsWaiting none = Unit
  IsWaiting (some c) = (c.is_on ≡ false) × (c.disabled ≡ false) × IsTried c

  waiting_at-IsWaiting :
      (i : ℕ) (chans : List ListedChan) → All IsTried chans → IsWaiting (waiting_at i chans)
  unfolding waiting_at
  waiting_at-IsWaiting i [] h = tt
  waiting_at-IsWaiting zero (c ∷ chans) h =
      if_elim IsWaiting (c.is_on || c.disabled) _ _ (λ e. tt)
        (λ e. (ground arith, ground arith, h.0))
  waiting_at-IsWaiting (suc i) (c ∷ chans) h = waiting_at-IsWaiting i chans h.1

  -- What `JoinChan` gives for such a channel
  abbrev IsAnswer : ListedChan × Bool → Type 0
  IsAnswer (c, false) = IsTried c
  IsAnswer (c, true) = IsPicked c

  either-IsAnswer : (c : ListedChan) (b : Bool) → IsPicked c → IsAnswer (c, b)
  either-IsAnswer c false h = h.2
  either-IsAnswer c true h = h

  join_chan-IsAnswer :
      (c : ListedChan) → 1 ≤ r.join_tries → IsWaiting (some c) → IsAnswer (join_chan r c)
  unfolding join_chan
  join_chan-IsAnswer c n h =
      if_elim IsAnswer (r.on_joining c) _ _ (λ e. h.2)
        (λ e.
          if_elim IsAnswer (not (r.join_tries == 0) && leb r.join_tries c.join_tries) _ _ (λ k. h.2)
            (λ k. either-IsAnswer (inc_join_tries c) _ (h.0, h.1, next_try k)))
    where
      next_try :
          (not (r.join_tries == 0) && leb r.join_tries c.join_tries) ≡ false
          → (c.join_tries + 1) % 2 ^ 32 ≤ r.join_tries
      next_try k = ground arith

  abbrev Goes : (ℕ → List ListedChan → Picked) → Type 0
  Goes next =
      (joins : ℕ) (chans : List ListedChan)
      → 1 ≤ joins
      → All IsTried chans
      → IsLimited joins (next joins chans)

  after_join-IsLimited :
      (i joins : ℕ) (chans : List ListedChan) (o : ListedChan × Bool)
      (next : ℕ → List ListedChan → Picked)
      → 1 ≤ joins
      → All IsTried chans
      → IsAnswer o
      → Goes next
      → IsLimited joins (after_join i joins chans o next)
  unfolding after_join
  after_join-IsLimited i joins chans (c, false) next n h p g =
      g joins (set chans i c) n (All-set i c chans p h)
  after_join-IsLimited i joins chans (c, true) next n h p g =
      if_elim (IsLimited joins) (joins == 1) _ _ (λ e. (n, (p, tt), All-set i c chans p.2 h))
        (λ e.
          let later : IsLimited (joins - 1) (next (joins - 1) (set chans i c)) =
            g (joins - 1) (set chans i c) (ground arith) (All-set i c chans p.2 h) in
          (omega arith, (p, later.1), later.2))

  visit-IsLimited :
      (i joins : ℕ) (chans : List ListedChan) (o : Option ListedChan)
      (next : ℕ → List ListedChan → Picked)
      → 1 ≤ r.join_tries
      → 1 ≤ joins
      → All IsTried chans
      → IsWaiting o
      → Goes next
      → IsLimited joins (visit r i joins chans o next)
  unfolding visit
  visit-IsLimited i joins chans none next t n h w g = g joins chans n h
  visit-IsLimited i joins chans (some c) next t n h w g =
      after_join-IsLimited i joins chans (join_chan r c) next n h (join_chan-IsAnswer c t w) g

  pick_loop-IsLimited :
      (start rounds a joins : ℕ) (chans : List ListedChan)
      → 1 ≤ r.join_tries
      → 1 ≤ joins
      → All IsTried chans
      → IsLimited joins (pick_loop r start rounds a joins chans)
  unfolding pick_loop
  pick_loop-IsLimited start zero a joins chans t n h = (omega arith, tt, h)
  pick_loop-IsLimited start (suc rounds) a joins chans t n h =
      visit-IsLimited _ joins chans _ (pick_loop r start rounds (a + 1)) t n h
        (waiting_at-IsWaiting _ chans h)
        (λ left later m k. pick_loop-IsLimited start rounds (a + 1) left later t m k)

-- If the user limits both the joins and the tries, and no channel has been tried more often than the
-- limit, then `JoinChans` picks as many channels as the limit of joins at most; each of them was
-- neither on nor disabled, and no channel, picked or not, has been tried more often than the limit
-- afterwards.
pub pick_chans-limits :
    (r : JoinRules) (random : ℕ) (chans : List ListedChan)
    → 1 ≤ r.join_tries
    → 1 ≤ r.max_joins
    → All (λ c. c.join_tries ≤ r.join_tries) chans
    → (length (pick_chans r random chans).joined ≤ r.max_joins)
      × All (IsPicked r) (pick_chans r random chans).joined
      × All (λ c. c.join_tries ≤ r.join_tries) (pick_chans r random chans).chans
unfolding pick_chans
pick_chans-limits r random chans t n h =
    pick_loop-IsLimited r (random % length chans) (length chans) 0 r.max_joins chans t n h
