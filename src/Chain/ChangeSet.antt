-- ===== src/Chain/ChangeSet.antt =====
-- `ChangeSet` of `crates/chain/src/local_chain.rs`: the blocks that are set, or unset, by height.
use bdk.Prelude.{ℕ, Bool, Option, List, []}
use bdk.Prelude.BtreeMap
use bdk.Prelude.BtreeMap.{BtreeMap}
use bdk.Core.Merge
use bdk.Core.Merge.{Merge}

pub record ChangeSet (D : Type 0) : Type 0 where
  pub blocks : BtreeMap (Option D)

module _ {D : Type 0} where
  abbrev pub empty : ChangeSet D
  empty = record { blocks = [] }

  abbrev pub insert : ℕ → Option D → ChangeSet D → ChangeSet D
  insert h d cs = record { blocks = BtreeMap.insert h d cs.blocks }

  abbrev pub is_empty : ChangeSet D → Bool
  is_empty cs = Merge.list_is_empty cs.blocks

  abbrev pub merge : ChangeSet D → ChangeSet D → ChangeSet D
  merge self other = record { blocks = Merge.extend self.blocks other.blocks }

  -- `collect()` puts the entries in from the left.
  abbrev pub from_entries : List (ℕ × Option D) → ChangeSet D
  from_entries entries = record { blocks = Merge.extend [] entries }
