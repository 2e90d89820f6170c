-- ===== src/Network/Channels/Tests.antt =====
-- Runs and instances of the theorems about the channel list.
use znc_playground.Network.Channels.Defs.{
  ListedChan, new_chan, find_chan, add_chan, add_chan_name, del_chan, move_chan, swap_chans, done,
}
use znc_playground.Network.Channels.Join.{join_chans}
use znc_playground.Network.Channels.Limits.{IsPicked, pick_chans-limits}
use znc_playground.Network.Channels.Lines.{join_text, concat}
use znc_playground.Network.Channels.Pick.{JoinRules, pick_chans}
use znc_playground.Network.Channels.Reach.{Step, Reached, Reached-AreDistinct}
use znc_playground.Network.Channels.Distinct.{AreDistinct}
use znc_playground.Network.Channels.Rounds.{join_chans-groups, length-join_chans}
use znc_playground.Prelude.{
  ℕ, ◌≤◌, ◌≡◌, refl, true, false, List, [], ◌∷◌, map, Option, none, some, All, Bytes, codes, length,
  replicate, arith,
}
use znc_playground.Text.Trim.{trim_left}

abbrev listed : Bytes → Bytes → ListedChan
listed name key = record {
  name = name;
  key = key;
  is_on = false;
  disabled = false;
  join_tries = 0;
  in_config = true;
}

abbrev chan_a : ListedChan
chan_a = listed (codes "#a") []

abbrev chan_b : ListedChan
chan_b = listed (codes "#b") (codes "pw")

abbrev chan_c : ListedChan
chan_c = listed (codes "&c") []

abbrev three : List ListedChan
three = chan_a ∷ chan_b ∷ chan_c ∷ []

join_chans_run : join_chans three ≡ some (codes "JOIN #a,#b,&c ,pw," ∷ [])
unfolding join_chans
join_chans_run = refl

abbrev lengths : Option (List Bytes) → Option (List ℕ)
lengths none = none
lengths (some lines) = some (map length lines)

-- Two channels of long names and no key: the first round adds the second one unseen.
overlong_run :
    lengths (join_chans (listed (replicate 300 35) [] ∷ listed (replicate 301 35) [] ∷ []))
    ≡ some (607 ∷ [])
unfolding join_chans
overlong_run = refl

find_chan_run : find_chan (codes "@+") (codes "+#B") three ≡ some chan_b
unfolding find_chan
find_chan_run = refl

add_chan_run : (add_chan (listed (codes "#B") []) three).1 ≡ false
unfolding add_chan
add_chan_run = refl

-- `AddChan` looks for the text, and not for the name that the channel gets.
named_twice_run :
    (add_chan_name (codes "#&") [] (codes "a") true (chan_a ∷ [])).0 ≡ chan_a ∷ chan_a ∷ []
unfolding add_chan_name
named_twice_run = refl

del_chan_run : (del_chan (codes "#B") three).0 ≡ chan_a ∷ chan_c ∷ []
unfolding del_chan
del_chan_run = refl

move_chan_run : move_chan (codes "#A") 2 three ≡ (chan_b ∷ chan_c ∷ chan_a ∷ [], done)
unfolding move_chan
move_chan_run = refl

swap_chans_run : swap_chans (codes "#A") (codes "&C") three ≡ (chan_c ∷ chan_b ∷ chan_a ∷ [], done)
unfolding swap_chans
swap_chans_run = refl

abbrev rules : JoinRules
rules = record {
  on_joining = λ c. false;
  on_timer_auto_join = λ c. false;
  join_tries = 3;
  max_joins = 2;
}

abbrev tried : ListedChan → ListedChan
tried c = record c { join_tries = 1 }

pick_chans_run : pick_chans rules 4 three ≡ record {
  chans = chan_a ∷ tried chan_b ∷ tried chan_c ∷ [];
  joined = tried chan_b ∷ tried chan_c ∷ [];
}
unfolding pick_chans
pick_chans_run = refl

join_chans-groups_example :
    (gs : List (List ListedChan)) × (concat gs ≡ three)
    × All (λ g. 1 ≤ length g) gs
    × (join_chans three ≡ some (map join_text gs))
join_chans-groups_example = join_chans-groups three (refl, (refl, (refl, tt)))

length-join_chans_example :
    (lines : List Bytes) × (join_chans three ≡ some lines) × All (λ line. length line ≤ 510) lines
length-join_chans_example =
    length-join_chans three (refl, (refl, (refl, tt)))
      (omega arith, (omega arith, (omega arith, tt)))

pick_chans-limits_example :
    (length (pick_chans rules 4 three).joined ≤ 2)
    × All (IsPicked rules) (pick_chans rules 4 three).joined
    × All (λ c. c.join_tries ≤ 3) (pick_chans rules 4 three).chans
pick_chans-limits_example =
    pick_chans-limits rules 4 three (omega arith) (omega arith)
      (omega arith, (omega arith, (omega arith, tt)))

abbrev three_moved : List ListedChan
three_moved =
    (move_chan (codes "#A") 2
      (add_chan chan_c
        (add_chan chan_b (add_chan_name (codes "#&") [] (codes "#a") true []).0).0).0).0

Reached-AreDistinct_example : AreDistinct three_moved
unfolding new_chan trim_left
Reached-AreDistinct_example = Reached-AreDistinct (
    Reached.step
      (Reached.step
        (Reached.step
          (Reached.step Reached.start
            (Step.named [] (codes "#&") [] (codes "#a") true (refl, refl)))
          (Step.added _ chan_b))
        (Step.added _ chan_c))
      (Step.moved _ (codes "#A") 2))
