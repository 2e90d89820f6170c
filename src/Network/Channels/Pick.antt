-- ===== src/Network/Channels/Pick.antt =====
-- `JoinChan` of `CIRCNetwork`, and the loop of `JoinChans` that picks the channels to join.
use znc_playground.Network.Channels.Defs.{ListedChan}
use znc_playground.Prelude.{
  ℕ, zero, suc, ◌+◌, ◌-◌, ◌%◌, ◌^◌, Bool, true, false, not, ◌&&◌, ◌||◌, List, [], ◌∷◌, Option, none,
  some, if◌then◌else◌, leb, ◌==◌, length, get_elem?, set,
}

-- What the modules answer and what the user set: `OnJoining`, `OnTimerAutoJoin`, `JoinTries` and
-- `MaxJoins`
pub record JoinRules : Type 0 where
  pub on_joining : ListedChan → Bool
  pub on_timer_auto_join : ListedChan → Bool
  pub join_tries : ℕ
  pub max_joins : ℕ

-- `IncJoinTries` on an `unsigned int`
abbrev pub inc_join_tries : ListedChan → ListedChan
inc_join_tries c = record c { join_tries = (c.join_tries + 1) % 2 ^ 32 }

abbrev pub disable : ListedChan → ListedChan
disable c = record c { disabled = true }

-- The channel behind the call, and whether to join it
unfoldable pub join_chan : JoinRules → ListedChan → ListedChan × Bool
join_chan r c =
    if r.on_joining c
    then (c, false)
    else if not (r.join_tries == 0) && leb r.join_tries c.join_tries
    then (disable c, false)
    else (inc_join_tries c, not (r.on_timer_auto_join (inc_join_tries c)))

-- `m_vChans` and `sChans`, the latter in the order of the calls
pub record Picked : Type 0 where
  pub chans : List ListedChan
  pub joined : List ListedChan

abbrev pub and_joined : ListedChan → Picked → Picked
and_joined c p = record p { joined = c ∷ p.joined }

abbrev if_waiting : Option ListedChan → Option ListedChan
if_waiting none = none
if_waiting (some c) = if c.is_on || c.disabled then none else some c

-- The channel at the place, if `IsOn` and `IsDisabled` let it be joined
unfoldable pub waiting_at : ℕ → List ListedChan → Option ListedChan
waiting_at i chans = if_waiting (get_elem? chans i)

-- What the answer of `JoinChan` changes; `next` is the rest of the loop.
unfoldable pub after_join :
    ℕ → ℕ → List ListedChan → ListedChan × Bool → (ℕ → List ListedChan → Picked) → Picked
after_join i joins chans (c, false) next = next joins (set chans i c)
after_join i joins chans (c, true) next =
    if joins == 1
    then record { chans = set chans i c; joined = c ∷ [] }
    else and_joined c (next (joins - 1) (set chans i c))

unfoldable pub visit :
    JoinRules
    → ℕ
    → ℕ
    → List ListedChan
    → Option ListedChan
    → (ℕ → List ListedChan → Picked)
    → Picked
unfolding join_chan after_join
visit r i joins chans none next = next joins chans
visit r i joins chans (some c) next = after_join i joins chans (join_chan r c) next

-- `n` rounds from the round `a` on; `joins` is `uJoins`.
unfoldable pub pick_loop : JoinRules → ℕ → ℕ → ℕ → ℕ → List ListedChan → Picked
unfolding visit waiting_at
pick_loop r start zero a joins chans = record { chans = chans; joined = [] }
pick_loop r start (suc n) a joins chans =
    let i = (start + a) % length chans in
    visit r i joins chans (waiting_at i chans) (pick_loop r start n (a + 1))

-- `random` is what `rand()` gives.
unfoldable pub pick_chans : JoinRules → ℕ → List ListedChan → Picked
unfolding pick_loop
pick_chans r random chans = pick_loop r (random % length chans) (length chans) 0 r.max_joins chans
