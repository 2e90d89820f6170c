-- ===== src/Config/Defs.antt =====
-- A configuration. `m_SubConfigs` is kept as one sequence, in the order of its loop: by tag, and for
-- one tag in the order in which the blocks came. `m_SubConfigNameSets` has the names of the blocks of
-- each tag, so it is read off the sequence.
use znc_playground.Prelude.{
  Bool, true, false, ◌&&◌, ◌||◌, List, [], ◌∷◌, ◌++◌, Option, none, some, if◌then◌else◌, Bytes,
  bytes_eq,
}
use znc_playground.StringMap.{StringMap, find, insert, lt_bytes}

mutual
  pub data Config : Type 0 where
    config : StringMap (List Bytes) → Blocks → Config

  pub data Blocks : Type 0 where
    nil : Blocks
    block : Bytes → Bytes → Config → Blocks → Blocks

abbrev pub empty_config : Config
empty_config = config [] nil

-- The blocks of the first sequence, then those of the second
unfoldable pub join_blocks : Blocks → Blocks → Blocks
join_blocks nil others = others
join_blocks (block tag name c bs) others = block tag name c (join_blocks bs others)

-- `nameset.find(sName) != nameset.end()`
unfoldable pub has_block : Bytes → Bytes → Blocks → Bool
unfolding bytes_eq
has_block tag name nil = false
has_block tag name (block t n c bs) = bytes_eq t tag && bytes_eq n name || has_block tag name bs

-- `m_SubConfigs[tag].emplace_back(name, sub)`
unfoldable pub add_block : Bytes → Bytes → Config → Blocks → Blocks
unfolding lt_bytes
add_block tag name sub nil = block tag name sub nil
add_block tag name sub (block t n c bs) =
    if lt_bytes tag t
    then block tag name sub (block t n c bs)
    else block t n c (add_block tag name sub bs)

abbrev values_or_none : Option (List Bytes) → List Bytes
values_or_none none = []
values_or_none (some vs) = vs

-- `m_ConfigEntries[name].push_back(value)`
unfoldable pub push_value : Bytes → Bytes → StringMap (List Bytes) → StringMap (List Bytes)
unfolding insert find
push_value name value es = insert name (values_or_none (find name es) ++ value ∷ []) es

unfoldable pub push_entry : Bytes → Bytes → Config → Config
unfolding push_value
push_entry name value (config es bs) = config (push_value name value es) bs

-- `AddKeyValuePair`
unfoldable pub add_key_value_pair : Bytes → Bytes → Config → Config
unfolding push_entry
add_key_value_pair [] value c = c
add_key_value_pair (n ∷ name) [] c = c
add_key_value_pair (n ∷ name) (v ∷ value) c = push_entry (n ∷ name) (v ∷ value) c

-- `AddSubConfig`
unfoldable pub add_sub_config : Bytes → Bytes → Config → Config → Config × Bool
unfolding has_block add_block
add_sub_config tag name sub (config es bs) =
    if has_block tag name bs
    then (config es bs, false)
    else (config es (add_block tag name sub bs), true)
