-- ===== src/Config/Order.antt =====
-- The order of the blocks of a configuration, and what it makes of the addition of a block.
use znc_playground.Config.Defs.{
  Config, config, Blocks, nil, block, join_blocks, has_block, add_block,
}
use znc_playground.Config.Entries.{IsKey}
use znc_playground.Config.Tags.{IsBlockName}
use znc_playground.Prelude.{◌≡◌, refl, ap, false, ◌&&◌, Bytes, bytes_eq}
use znc_playground.StringMap.{IsSorted, lt_bytes}
use znc_playground.Config.Values.{AreEntries}

-- A later block has no smaller tag, and another name where it has the same tag.
abbrev pub Follows : Bytes → Bytes → Bytes → Bytes → Type 0
Follows t n tag name = (lt_bytes tag t ≡ false) × ((bytes_eq t tag && bytes_eq n name) ≡ false)

abbrev pub AllFollow : Bytes → Bytes → Blocks → Type 0
AllFollow t n nil = Unit
AllFollow t n (block tag name c bs) = Follows t n tag name × AllFollow t n bs

abbrev pub IsOrdered : Blocks → Type 0
IsOrdered nil = Unit
IsOrdered (block t n c bs) = AllFollow t n bs × IsOrdered bs

-- A configuration in the form in which `Parse` gives it, with texts that lines can hold
abbrev mutual
  pub IsWritable : Config → Type 0
  IsWritable (config es bs) = AreEntries es × IsSorted es × AreBlocks bs × IsOrdered bs

  pub AreBlocks : Blocks → Type 0
  AreBlocks nil = Unit
  AreBlocks (block t n c bs) = IsKey t × IsBlockName n × IsWritable c × AreBlocks bs

-- The block comes behind all of these.
abbrev pub IsBehind : Bytes → Bytes → Blocks → Type 0
IsBehind tag name nil = Unit
IsBehind tag name (block t n c bs) = Follows t n tag name × IsBehind tag name bs

AllFollow-join :
    (t n tag name : Bytes) (old : Blocks) (c : Config) (bs : Blocks)
    → AllFollow t n (join_blocks old (block tag name c bs))
    → Follows t n tag name
unfolding join_blocks
AllFollow-join t n tag name nil c bs h = h.0
AllFollow-join t n tag name (block t' n' c' old) c bs h = AllFollow-join t n tag name old c bs h.1

pub IsOrdered-IsBehind :
    (tag name : Bytes) (old : Blocks) (c : Config) (bs : Blocks)
    → IsOrdered (join_blocks old (block tag name c bs))
    → IsBehind tag name old
unfolding join_blocks
IsOrdered-IsBehind tag name nil c bs h = tt
IsOrdered-IsBehind tag name (block t n c' old) c bs h =
    (AllFollow-join t n tag name old c bs h.0, IsOrdered-IsBehind tag name old c bs h.1)

pub add_block-IsBehind :
    (tag name : Bytes) (c : Config) (old : Blocks)
    → IsBehind tag name old
    → add_block tag name c old ≡ join_blocks old (block tag name c nil)
unfolding add_block join_blocks
add_block-IsBehind tag name c nil h = refl
add_block-IsBehind tag name c (block t n c' old) h =
    rw h.0.0 (ap (block t n c') (add_block-IsBehind tag name c old h.1))

pub has_block-IsBehind :
    (tag name : Bytes) (old : Blocks) → IsBehind tag name old → has_block tag name old ≡ false
unfolding has_block
has_block-IsBehind tag name nil h = refl
has_block-IsBehind tag name (block t n c old) h = rw h.0.1 (has_block-IsBehind tag name old h.1)

pub join-nil : (bs : Blocks) → join_blocks bs nil ≡ bs
unfolding join_blocks
join-nil nil = refl
join-nil (block t n c bs) = ap (block t n c) (join-nil bs)

pub join_assoc :
    (old : Blocks) (t n : Bytes) (c : Config) (bs : Blocks)
    → join_blocks (join_blocks old (block t n c nil)) bs ≡ join_blocks old (block t n c bs)
unfolding join_blocks
join_assoc nil t n c bs = refl
join_assoc (block t' n' c' old) t n c bs = ap (block t' n' c') (join_assoc old t n c bs)
