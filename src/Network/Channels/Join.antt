-- ===== src/Network/Channels/Join.antt =====
-- `JoinChans` of `CIRCNetwork` on a set of channels: the `JOIN` messages for all of them, as many
-- channels in a message as its length allows.
use znc_playground.Network.Channels.Defs.{ListedChan}
use znc_playground.Prelude.{
  ℕ, zero, suc, ◌+◌, Bool, true, false, not, ◌&&◌, ◌||◌, List, [], ◌∷◌, ◌++◌, Option, none, some,
  if◌then◌else◌, leb, length, Bytes, codes,
}

-- `sKeys`, `sJoin`, `bHaveKey` and `uiJoinLength`
pub record JoinText : Type 0 where
  pub keys : Bytes
  pub names : Bytes
  pub have_key : Bool
  pub len : ℕ

abbrev pub is_nil : Bytes → Bool
is_nil [] = true
is_nil (c ∷ s) = false

-- The comma that goes behind what is already there
abbrev pub comma_behind : Bytes → Bytes
comma_behind [] = []
comma_behind (c ∷ s) = codes ","

-- The two lengths and two commas
abbrev pub chan_len : ListedChan → ℕ
chan_len c = length c.name + length c.key + 2

-- What a round does for a channel that fits
unfoldable pub add_chan_text : JoinText → ListedChan → JoinText
add_chan_text t c = record {
  keys = (t.keys ++ comma_behind t.names) ++ c.key;
  names = (t.names ++ comma_behind t.names) ++ c.name;
  have_key = t.have_key || not (is_nil c.key);
  len = t.len + chan_len c;
}

-- The loop, and the channels that are left for the next message
unfoldable pub fill : JoinText → List ListedChan → JoinText × List ListedChan
unfolding add_chan_text
fill t [] = (t, [])
fill t (c ∷ chans) =
    let rest = fill (add_chan_text t c) chans in
    if not (is_nil t.keys) && leb 512 (t.len + chan_len c) then (t, c ∷ chans) else rest

abbrev pub empty_text : JoinText
empty_text = record { keys = []; names = []; have_key = false; len = 5 }

-- The message
unfoldable pub join_line : JoinText → Bytes
join_line t =
    if t.have_key
    then codes "JOIN " ++ (t.names ++ (codes " " ++ t.keys))
    else codes "JOIN " ++ t.names

abbrev pub then_line : Bytes → Option (List Bytes) → Option (List Bytes)
then_line line none = none
then_line line (some lines) = some (line ∷ lines)

-- `while (!sChans.empty()) JoinChans(sChans);` on fuel; the messages that are put
unfoldable pub join_rounds : ℕ → List ListedChan → Option (List Bytes)
unfolding fill join_line
join_rounds fuel [] = some []
join_rounds zero (c ∷ chans) = none
join_rounds (suc fuel) (c ∷ chans) =
    let r = fill empty_text (c ∷ chans) in then_line (join_line r.0) (join_rounds fuel r.1)

-- A round takes a channel at least.
unfoldable pub join_chans : List ListedChan → Option (List Bytes)
unfolding join_rounds
join_chans chans = join_rounds (length chans) chans
