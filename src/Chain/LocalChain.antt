-- ===== src/Chain/LocalChain.antt =====
-- `LocalChain` of `crates/chain/src/local_chain.rs`: a chain of checkpoints from the genesis block.
pub mod Collect
pub mod Apply
pub mod Merge
pub mod Header
pub mod Disconnect
pub mod Checked
pub mod Canonicalize
mod Tests
use bdk.Prelude.{
  ℕ, map, Bool, true, false, not, ◌&&◌, Option, none, some, List, [], ◌∷◌, reverse, ltb, leb, ◌==◌,
  Result, ok, err, map_err, map_ok, map_option, get_last?, and_then, if◌then◌else◌,
}
use bdk.Prelude.BtreeMap
use bdk.Prelude.BtreeMap.{BtreeMap}
use bdk.Core.BlockId.{BlockHash, BlockId, block_id_eq}
use bdk.Core.Checkpoint
use bdk.Core.Checkpoint.{
  CheckPoint, base, link, ToBlockHash, data_ref, block_id, height, hash, prev, iter,
}
use bdk.Core.Checkpoint.Build.{new, extend, from_blocks}
use bdk.Chain.ChangeSet
use bdk.Chain.ChangeSet.{ChangeSet}

pub data ApplyBlockError : Type 0 where
  missing_genesis : ApplyBlockError
  prev_blockhash_mismatch : BlockId → ApplyBlockError

pub record AlterCheckPointError : Type 0 where
  pub height : ℕ
  pub original_hash : BlockHash
  pub update_hash : Option BlockHash

pub data MissingGenesisError : Type 0 where
  missing_genesis_error : MissingGenesisError

pub record LocalChain (D : Type 0) : Type 0 where
  pub tip : CheckPoint D

module _ {D : Type 0} where
  -- The first loop of `apply_changeset_to_checkpoint`: the blocks from `start_height` up, and the
  -- checkpoint below them.
  pub collect : CheckPoint D → ℕ → BtreeMap D → BtreeMap D × Option (CheckPoint D)
  collect (base b d) start_height extension =
      if leb start_height b.height
      then (BtreeMap.insert b.height d extension, none)
      else (extension, some (base b d))
  collect (link b d p s i) start_height extension =
      let further = collect p start_height (BtreeMap.insert b.height d extension) in
      if leb start_height b.height then further else (extension, some (link b d p s i))

  -- Its second loop: the changes are made to the extension.
  pub amend : BtreeMap (Option D) → BtreeMap D → BtreeMap D
  amend [] extension = extension
  amend ((h, some d) ∷ rest) extension = amend rest (BtreeMap.insert h d extension)
  amend ((h, none) ∷ rest) extension = amend rest (BtreeMap.remove h extension)

module _ {D : Type 0} ⦃t : ToBlockHash D⦄ where
  -- `err none` of the checkpoint's `from_blocks` is for no blocks at all: there is one at height 0.
  abbrev mismatch : Option (CheckPoint D) → ApplyBlockError
  mismatch (some last_cp) = prev_blockhash_mismatch (block_id last_cp)
  mismatch none = missing_genesis

  pub local_chain_from_blocks : BtreeMap D → Result (LocalChain D) ApplyBlockError
  local_chain_from_blocks blocks = elim (BtreeMap.get 0 blocks) [
    | none ↦ err missing_genesis
    | some genesis ↦ map_err mismatch (map_ok (λ tip. record { tip = tip }) (from_blocks blocks))
  ]

  rebase : Option (CheckPoint D) → BtreeMap D → Result (CheckPoint D) ApplyBlockError
  rebase (some base_cp) extension =
      map_err (λ last_cp. prev_blockhash_mismatch (block_id last_cp)) (extend base_cp extension)
  rebase none extension =
      map_ok (λ (chain : LocalChain D). chain.tip) (local_chain_from_blocks extension)

  apply_blocks : CheckPoint D → BtreeMap (Option D) → Result (CheckPoint D) ApplyBlockError
  unfolding collect amend rebase
  apply_blocks init_cp [] = ok init_cp
  apply_blocks init_cp ((start_height, first) ∷ rest) =
      let (extension, lower) = collect init_cp start_height [] in
      rebase lower (amend ((start_height, first) ∷ rest) extension)

  pub apply_changeset_to_checkpoint :
      CheckPoint D → ChangeSet D → Result (CheckPoint D) ApplyBlockError
  unfolding apply_blocks
  apply_changeset_to_checkpoint init_cp changeset = apply_blocks init_cp changeset.blocks

  -- `LocalChain::apply_changeset`.
  pub apply_changeset : LocalChain D → ChangeSet D → Result (LocalChain D) ApplyBlockError
  apply_changeset self changeset =
      map_ok (λ tip. record { tip = tip }) (apply_changeset_to_checkpoint self.tip changeset)

  pub initial_changeset : LocalChain D → ChangeSet D
  initial_changeset self =
      ChangeSet.from_entries (map (λ cp. (height cp, some (data_ref cp))) (iter self.tip))

  pub from_genesis : D → LocalChain D × ChangeSet D
  unfolding initial_changeset
  from_genesis d =
      let chain : LocalChain D = record { tip = new 0 d } in (chain, initial_changeset chain)

  pub from_changeset : ChangeSet D → Result (LocalChain D) ApplyBlockError
  unfolding from_genesis
  from_changeset changeset = elim (BtreeMap.get 0 changeset.blocks) [
    | some (some d) ↦ apply_changeset (from_genesis d).0 changeset
    | some none ↦ err missing_genesis
    | none ↦ err missing_genesis
  ]

  -- A chain has a last checkpoint, so the case of no item does not arise.
  pub from_tip : CheckPoint D → Result (LocalChain D) MissingGenesisError
  from_tip tip = elim (get_last? (iter tip)) [
    | some genesis_cp ↦
        if height genesis_cp == 0 then ok (record { tip = tip }) else err missing_genesis_error
    | none ↦ err missing_genesis_error
  ]

  -- `none` is the panic of `expect`.
  pub genesis_hash : LocalChain D → Option BlockHash
  genesis_hash self = map_option hash (Checkpoint.get self.tip 0)

  -- `none` is the panic of `genesis_hash`.
  pub insert_block :
      LocalChain D → ℕ → D → Option (Result (LocalChain D × ChangeSet D) AlterCheckPointError)
  insert_block self h d = elim (Checkpoint.get self.tip h) [
    | some original_cp ↦ some (
        if hash original_cp == t.to_blockhash d
        then ok (self, ChangeSet.empty)
        else err (record {
          height = h;
          original_hash = hash original_cp;
          update_hash = some (t.to_blockhash d);
        }))
    | none ↦
        let changeset : ChangeSet D = ChangeSet.insert h (some d) ChangeSet.empty in
        elim (apply_changeset self changeset) [
          | ok chain ↦ some (ok (chain, changeset))
          | err e ↦
              map_option
                (λ genesis. err (record {
                  height = 0;
                  original_hash = genesis;
                  update_hash =
                      map_option t.to_blockhash
                        (and_then (BtreeMap.get 0 changeset.blocks) (λ x. x));
                }))
                (genesis_hash self)
        ]
  ]

  -- The loop of `disconnect_from`.
  disconnect_walk :
      CheckPoint D
      → BlockId
      → ChangeSet D
      → Option (CheckPoint D)
      → ChangeSet D × Option (CheckPoint D)
  disconnect_walk (base b d) target changeset remove_from =
      if ltb b.height target.height then (changeset, remove_from) else (
        ChangeSet.insert b.height none changeset,
        if block_id_eq b target then some (base b d) else remove_from,
      )
  disconnect_walk (link b d p s i) target changeset remove_from =
      let further =
        disconnect_walk p target (ChangeSet.insert b.height none changeset)
          (if block_id_eq b target then some (link b d p s i) else remove_from) in
      if ltb b.height target.height then (changeset, remove_from) else further

  disconnected :
      LocalChain D
      → ChangeSet D
      → Option (CheckPoint D)
      → Result (LocalChain D × ChangeSet D) MissingGenesisError
  disconnected self changeset none = ok (self, ChangeSet.empty)
  disconnected self changeset (some cp) = elim (prev cp) [
    | some new_tip ↦ ok (record { tip = new_tip }, changeset)
    | none ↦ err missing_genesis_error
  ]

  pub disconnect_from :
      LocalChain D → BlockId → Result (LocalChain D × ChangeSet D) MissingGenesisError
  unfolding disconnect_walk disconnected
  disconnect_from self target =
      let (changeset, remove_from) = disconnect_walk self.tip target ChangeSet.empty none in
      disconnected self changeset remove_from

-- `is_block_in_chain`, for a chain of block hashes.
pub is_block_in_chain : {D : Type 0} → LocalChain D → BlockId → BlockId → Option Bool
is_block_in_chain self block chain_tip = elim (Checkpoint.get self.tip chain_tip.height) [
  | some cp ↦
      if hash cp == chain_tip.hash
      then map_option (λ c. hash c == block.hash) (Checkpoint.get cp block.height)
      else none
  | none ↦ none
]
