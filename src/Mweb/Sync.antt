-- ===== src/Mweb/Sync.antt =====
-- The pure parts of `crates/mweb/src/mweb_sync.rs`: the sync cursor, the dating of leaves and the
-- heights whose headers are sampled.
pub mod Heights
pub mod Dated
mod Tests
use bdk.Prelude.{
  ℕ, zero, suc, ◌+◌, ◌-◌, ◌/◌, ◌%◌, min, max, Bool, true, false, Option, none, some, List, [], ◌∷◌,
  ◌++◌, ltb, ◌==◌, get_last?, get_elem?, if◌then◌else◌,
}
use bdk.Prelude.BtreeMap.{BtreeMap}
use bdk.Core.BlockId.{BlockHash}
use bdk.Core.Checkpoint.{saturating_add}
use bdk.Mweb.Leafset.{bit_is_set}

-- `MAX_REQUESTED_MWEB_UTXOS`.
abbrev pub max_requested_mweb_utxos : ℕ
max_requested_mweb_utxos = 4096

pub record SyncState : Type 0 where
  pub tip_hash : Option BlockHash
  pub tip_height : Option ℕ
  pub leafset : List ℕ
  pub height_map : BtreeMap ℕ
  pub pending_tip_hash : Option BlockHash
  pub utxo_cursor : Option ℕ

abbrev pub new : SyncState
new = record {
  tip_hash = none;
  tip_height = none;
  leafset = [];
  height_map = [];
  pending_tip_hash = none;
  utxo_cursor = none;
}

pub clear_utxo_resume : SyncState → SyncState
clear_utxo_resume self = record self { pending_tip_hash = none; utxo_cursor = none }

pub invalidate_leafset : SyncState → SyncState
unfolding clear_utxo_resume
invalidate_leafset self = clear_utxo_resume (record self { leafset = []; tip_hash = none })

unfoldable pub date_leaf_index : BtreeMap ℕ → ℕ → ℕ → ℕ
date_leaf_index [] leaf_index tip_height = tip_height
date_leaf_index ((height, leaves) ∷ height_map) leaf_index tip_height =
    let rest = date_leaf_index height_map leaf_index tip_height in
    if ltb leaf_index leaves then height else rest

unfoldable pub leafset_has_leaf : List ℕ → ℕ → Bool
leafset_has_leaf leafset leaf = elim (get_elem? leafset (leaf / 8)) [
  | some b ↦ bit_is_set b (leaf % 8)
  | none ↦ false
]

-- `count` heights from `start` on.
abbrev pub heights_from : ℕ → ℕ → List ℕ
heights_from start zero = []
heights_from start (suc count) = start ∷ heights_from (suc start) count

unfoldable pub fine_sample_heights : ℕ → ℕ → List ℕ
fine_sample_heights tip_height window =
    let start = tip_height - (window - 1) in
    if window == 0 then tip_height ∷ [] else heights_from start (suc tip_height - start)

-- The loop of `coarse_sample_heights`.
unfoldable pub coarse_loop : ℕ → ℕ → ℕ → ℕ → List ℕ
coarse_loop zero h tip_height stride = []
coarse_loop (suc fuel) h tip_height stride =
    let rest = coarse_loop fuel (saturating_add h stride) tip_height stride in
    if ltb h tip_height then h ∷ rest else []

abbrev pub is_last : List ℕ → ℕ → Bool
is_last out tip_height = elim (get_last? out) [ none ↦ false | some h ↦ h == tip_height ]

-- A turn of the loop gets nearer to the tip.
unfoldable pub coarse_sample_heights : ℕ → ℕ → ℕ → List ℕ
coarse_sample_heights from_height tip_height stride =
    let out = coarse_loop (tip_height - from_height) from_height tip_height (max stride 1) in
    if is_last out tip_height then out else out ++ (tip_height ∷ [])

pub effective_batch_size : ℕ → ℕ
effective_batch_size batch_size = min (max batch_size 1) max_requested_mweb_utxos
