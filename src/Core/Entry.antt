-- ===== src/Core/Entry.antt =====
-- `CheckPointEntry` of `crates/core/src/checkpoint_entry.rs`: a checkpoint, or a block that the
-- checkpoint right above it names as its parent.
pub mod Laws
use bdk.Prelude.{
  ℕ, ◌-◌, Bool, true, false, Option, none, some, List, [], ◌∷◌, ◌==◌, ◌≡◌, refl, map_option,
  and_then, if◌then◌else◌,
}
use bdk.Core.BlockId.{BlockHash, BlockId}
use bdk.Core.Checkpoint
use bdk.Core.Checkpoint.{CheckPoint, base, link, ToBlockHash, data_ref}
use bdk.Core.Checkpoint.Range.{checked_sub}

pub data CheckPointEntry (D : Type 0) : Type 0 where
  placeholder : BlockId → CheckPoint D → CheckPointEntry D
  occupied : CheckPoint D → CheckPointEntry D

module _ {D : Type 0} where
  abbrev pub checkpoint : CheckPointEntry D → Option (CheckPoint D)
  checkpoint (placeholder b c) = none
  checkpoint (occupied c) = some c

  abbrev pub is_placeholder : CheckPointEntry D → Bool
  is_placeholder (placeholder b c) = true
  is_placeholder (occupied c) = false

  abbrev pub source_checkpoint : CheckPointEntry D → CheckPoint D
  source_checkpoint (placeholder b c) = c
  source_checkpoint (occupied c) = c

  abbrev pub floor_checkpoint : CheckPointEntry D → Option (CheckPoint D)
  floor_checkpoint (placeholder b c) = Checkpoint.prev c
  floor_checkpoint (occupied c) = some c

  -- `data_ref` and `data`, which clones it.
  abbrev pub entry_data : CheckPointEntry D → Option D
  entry_data (placeholder b c) = none
  entry_data (occupied c) = some (data_ref c)

  abbrev pub block_id : CheckPointEntry D → BlockId
  block_id (placeholder b c) = b
  block_id (occupied c) = Checkpoint.block_id c

  abbrev pub hash : CheckPointEntry D → BlockHash
  hash e = (block_id e).hash

  abbrev pub height : CheckPointEntry D → ℕ
  height e = (block_id e).height

module _ {D : Type 0} ⦃t : ToBlockHash D⦄ where
  -- The checkpoint below, or the block that `c` names where no checkpoint stands right below.
  abbrev prev_or_placeholder : CheckPoint D → ℕ → BlockHash → CheckPointEntry D
  prev_or_placeholder c prev_height prev_blockhash =
      let gap : CheckPointEntry D =
        placeholder (record { height = prev_height; hash = prev_blockhash }) c in
      elim (Checkpoint.prev c) [
        | some p ↦ if Checkpoint.height p == prev_height then occupied p else gap
        | none ↦ gap
      ]

  unfoldable pub prev : CheckPointEntry D → Option (CheckPointEntry D)
  prev (placeholder b c) = map_option occupied (Checkpoint.prev c)
  prev (occupied c) = elim (checked_sub (Checkpoint.height c) 1) [
    | some prev_height ↦ elim (t.prev_blockhash (data_ref c)) [
      | some prev_blockhash ↦ some (prev_or_placeholder c prev_height prev_blockhash)
      | none ↦ map_option occupied (Checkpoint.prev c)
    ]
    | none ↦ none
  ]

  -- The items of `entry_iter`, by recursion on the chain: what follows a checkpoint is the chain
  -- below it, or first the placeholder that `prev` gives, or nothing.
  abbrev follow : Option (CheckPointEntry D) → List (CheckPointEntry D) → List (CheckPointEntry D)
  follow none rest = []
  follow (some (occupied c)) rest = rest
  follow (some (placeholder b c)) rest = placeholder b c ∷ rest

  unfoldable pub entry_iter : CheckPoint D → List (CheckPointEntry D)
  entry_iter (base b d) = occupied (base b d) ∷ follow (prev (occupied (base b d))) []
  entry_iter (link b d p s i) =
      let rest = entry_iter p in
      occupied (link b d p s i) ∷ follow (prev (occupied (link b d p s i))) rest
