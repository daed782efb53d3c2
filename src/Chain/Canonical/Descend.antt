-- ===== src/Chain/Canonical/Descend.antt =====
-- `TxDescendants` of `crates/chain/src/tx_graph.rs`, as `mark_canonical` of
-- `crates/chain/src/canonical_task.rs` runs it: a transaction and its descendants become not
-- canonical. Fuel bounds the expansions: each one makes one more transaction not canonical.
pub mod Pruning
pub mod Enough
use bdk.Prelude.{ℕ, zero, suc, Bool, true, false, List, [], ◌∷◌, ◌++◌, map, length}
use bdk.Prelude.BtreeMap.{BtreeMap}
use bdk.Prelude.IdSet
use bdk.Prelude.IdSet.{IdSet}
use bdk.Chain.Tx.{Transaction}
use bdk.Chain.TxGraph.{TxGraph, concat_map, tx_spends, direct_conflicts}

-- `not_canonical` and `undo_not_canonical`.
pub record Pruned : Type 0 where
  pub not_canonical : IdSet
  pub undo : List ℕ

-- The closure's insertion.
abbrev pub reject : ℕ → Pruned → Pruned
reject txid p = record {
  not_canonical = IdSet.insert txid p.not_canonical;
  undo = p.undo ++ (txid ∷ []);
}

module _ {A : Type 0} (graph : TxGraph A) where
  -- What `populate_queue` adds.
  abbrev pub spend_paths : ℕ → List ℕ
  spend_paths txid = concat_map (λ e. e.1) (tx_spends graph txid)

  unfoldable pub descend : ℕ → IdSet → List ℕ → Pruned → Pruned
  descend fuel visited [] p = p
  descend zero visited (txid ∷ queue) p = elim (IdSet.contains visited txid) [
    | true ↦ descend zero visited queue p
    | false ↦ elim (IdSet.contains p.not_canonical txid) [
      | true ↦ descend zero (IdSet.insert txid visited) queue p
      | false ↦ p
    ]
  ]
  descend (suc fuel) visited (txid ∷ queue) p = elim (IdSet.contains visited txid) [
    | true ↦ descend (suc fuel) visited queue p
    | false ↦ elim (IdSet.contains p.not_canonical txid) [
      | true ↦ descend (suc fuel) (IdSet.insert txid visited) queue p
      | false ↦ descend fuel (IdSet.insert txid visited) (queue ++ spend_paths txid) (reject txid p)
    ]
  ]

  -- Every transaction that spends an output.
  abbrev pub all_spenders : List ℕ
  all_spenders = concat_map (λ row. concat_map (λ e. e.1) row.1) graph.spends

  abbrev pub prune_fuel : ℕ
  prune_fuel = suc (length all_spenders)

  -- The loop over the direct conflicts.
  unfoldable pub prune_each : List ℕ → Pruned → Pruned
  prune_each [] p = p
  prune_each (conflict_txid ∷ conflicts) p =
      prune_each conflicts (descend prune_fuel [] (conflict_txid ∷ []) p)

  abbrev pub conflict_ids : Transaction → List ℕ
  conflict_ids tx = map (λ e. e.1) (direct_conflicts graph tx)

  unfoldable pub prune_conflicts : Transaction → Pruned → Pruned
  prune_conflicts tx p = prune_each (conflict_ids tx) p
