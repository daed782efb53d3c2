-- ===== src/Chain/Canonical/Mark.antt =====
-- `TxAncestors` of `crates/chain/src/tx_graph.rs` and `mark_canonical` of
-- `crates/chain/src/canonical_task.rs`. Fuel bounds the expansions: each one makes one more full
-- transaction canonical.
pub mod Marked
pub mod Undo
pub mod Kept
pub mod Enough
use bdk.Prelude.{
  ℕ, zero, suc, Bool, true, false, Option, none, some, List, [], ◌∷◌, ◌++◌, map, length,
  if◌then◌else◌,
}
use bdk.Prelude.BtreeMap
use bdk.Prelude.BtreeMap.{BtreeMap}
use bdk.Prelude.IdSet
use bdk.Prelude.IdSet.{IdSet}
use bdk.Chain.Tx.{TxIn, Transaction}
use bdk.Chain.TxGraph.{TxGraph, get_tx}
use bdk.Chain.Canonical.Reason.{CanonicalReason, to_transitive}
use bdk.Chain.Canonical.Descend.{Pruned, prune_conflicts}

abbrev pub CanonicalMap : Type 0 → Type 0
CanonicalMap A = BtreeMap (Transaction × CanonicalReason A)

-- What `mark_canonical` changes while it visits the ancestors.
pub record Marking (A : Type 0) : Type 0 where
  pub canonical : CanonicalMap A
  pub pruned : Pruned
  pub staged : List ℕ
  pub detected : Bool
  pub is_starting_tx : Bool

-- `canonical`, `not_canonical` and `canonical_order` of the task.
pub record Marks (A : Type 0) : Type 0 where
  pub canonical : CanonicalMap A
  pub not_canonical : IdSet
  pub canonical_order : List ℕ

abbrev pub remove_all : {V : Type 0} → List ℕ → BtreeMap V → BtreeMap V
remove_all [] m = m
remove_all (k ∷ ks) m = remove_all ks (BtreeMap.remove k m)

abbrev pub remove_ids : List ℕ → IdSet → IdSet
remove_ids [] s = s
remove_ids (k ∷ ks) s = remove_ids ks (IdSet.remove k s)

abbrev pub has_key : {V : Type 0} → ℕ → BtreeMap V → Bool
has_key k m = elim (BtreeMap.get k m) [ none ↦ false | some v ↦ true ]

module _ {A : Type 0} where
  abbrev pub this_reason : CanonicalReason A → ℕ → Marking A → CanonicalReason A
  this_reason reason starting_txid m =
      if m.is_starting_tx then reason else to_transitive reason starting_txid

  abbrev pub stage : Transaction → CanonicalReason A → Pruned → Marking A → Marking A
  stage tx reason pruned m = record {
    canonical = BtreeMap.insert tx.txid (tx, reason) m.canonical;
    pruned = pruned;
    staged = m.staged ++ (tx.txid ∷ []);
    detected = m.detected;
    is_starting_tx = false;
  }

  abbrev pub start_marking : Marks A → Marking A
  start_marking self = record {
    canonical = self.canonical;
    pruned = record { not_canonical = self.not_canonical; undo = [] };
    staged = [];
    detected = false;
    is_starting_tx = true;
  }

  -- The changes are undone when the transaction double spends itself.
  unfoldable pub settle : Marks A → Marking A → Marks A
  settle self m = elim m.detected [
    | true ↦ record {
      canonical = remove_all m.staged m.canonical;
      not_canonical = remove_ids m.pruned.undo m.pruned.not_canonical;
      canonical_order = self.canonical_order;
    }
    | false ↦ record {
      canonical = m.canonical;
      not_canonical = m.pruned.not_canonical;
      canonical_order = self.canonical_order ++ m.staged;
    }
  ]

module _ {A : Type 0} (graph : TxGraph A) where
  -- `populate_queue`: the inputs' transactions that are visited for the first time and full.
  unfoldable pub populate_queue : List TxIn → IdSet → List Transaction → IdSet × List Transaction
  populate_queue [] visited queue = (visited, queue)
  populate_queue (txin ∷ inputs) visited queue =
      let prev_txid = txin.previous_output.txid in
      elim (IdSet.contains visited prev_txid) [
        | true ↦ populate_queue inputs visited queue
        | false ↦ elim (get_tx graph prev_txid) [
          | none ↦ populate_queue inputs (IdSet.insert prev_txid visited) queue
          | some tx ↦ populate_queue inputs (IdSet.insert prev_txid visited) (queue ++ (tx ∷ []))
        ]
      ]

  -- The closure on a transaction; whether it returns `Some`.
  unfoldable pub visit : CanonicalReason A → ℕ → Transaction → Marking A → Marking A × Bool
  visit reason starting_txid tx m = elim (has_key tx.txid m.canonical) [
    | true ↦ (record m { is_starting_tx = false }, false)
    | false ↦
        let pruned = prune_conflicts graph tx m.pruned in
        elim (IdSet.contains pruned.not_canonical tx.txid) [
          | true ↦ (record m { pruned = pruned; detected = true; is_starting_tx = false }, false)
          | false ↦ (stage tx (this_reason reason starting_txid m) pruned m, true)
        ]
  ]

  unfoldable pub ascend :
      ℕ → CanonicalReason A → ℕ → IdSet → List Transaction → Marking A → Marking A
  ascend fuel reason starting_txid visited [] m = m
  ascend zero reason starting_txid visited (tx ∷ queue) m =
      let visited_tx = visit reason starting_txid tx m in
      elim visited_tx.1 [
        | false ↦ ascend zero reason starting_txid visited queue visited_tx.0
        | true ↦ visited_tx.0
      ]
  ascend (suc fuel) reason starting_txid visited (tx ∷ queue) m =
      let visited_tx = visit reason starting_txid tx m in
      let next = populate_queue tx.input visited queue in
      elim visited_tx.1 [
        | false ↦ ascend (suc fuel) reason starting_txid visited queue visited_tx.0
        | true ↦ ascend fuel reason starting_txid next.0 next.1 visited_tx.0
      ]

  abbrev pub mark_fuel : ℕ
  mark_fuel = suc (length graph.txs)

  unfoldable pub mark_canonical : Marks A → ℕ → Transaction → CanonicalReason A → Marks A
  mark_canonical self txid tx reason =
      settle self (ascend mark_fuel reason txid [] (tx ∷ []) (start_marking self))
