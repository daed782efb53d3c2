-- ===== src/Chain/Canonical/ViewTask.antt =====
-- `CanonicalViewTask` of `crates/chain/src/canonical_view_task.rs`: the position of each canonical
-- transaction. Fuel bounds the expansions of the walk over descendants.
pub mod Found
pub mod Position
use bdk.Prelude.{
  ℕ, zero, suc, Bool, true, false, not, ◌&&◌, ◌||◌, Option, none, some, List, [], ◌∷◌, ◌++◌, map,
  map_option, and_then, length, if◌then◌else◌,
}
use bdk.Prelude.BtreeMap
use bdk.Prelude.BtreeMap.{BtreeMap}
use bdk.Prelude.IdSet
use bdk.Prelude.IdSet.{IdSet}
use bdk.Core.BlockId.{BlockId, block_id_eq}
use bdk.Core.ChainQuery.{ChainRequest, ChainResponse, ChainQuery}
use bdk.Chain.ChainPosition.{ChainPosition, confirmed, unconfirmed}
use bdk.Chain.Tx.{Transaction}
use bdk.Chain.TxGraph.{Anchor, TxGraph, TxNode, get_tx_node}
use bdk.Chain.TxGraph.ChangeSet.{OutPointMap}
use bdk.Chain.Canonical.Reason.{
  CanonicalReason, assumed, anchored, observed_in, ObservedIn, block, mempool, is_transitive,
  is_assumed,
}
use bdk.Chain.Canonical.Descend.{spend_paths, all_spenders}
use bdk.Chain.Canonical.Mark.{CanonicalMap, has_key}
use bdk.Chain.Canonical.View.{CanonicalTxs, CanonicalView}

pub data ViewStage : Type 0 where
  resolving_positions : ViewStage
  finished : ViewStage

pub record CanonicalViewTask (A : Type 0) : Type 0 where
  pub tip : BlockId
  pub canonical_order : List ℕ
  pub canonical_txs : CanonicalMap A
  pub spends : OutPointMap ℕ
  pub unprocessed_anchor_checks : List (ℕ × List A)
  pub direct_anchors : BtreeMap A
  pub current_stage : ViewStage

abbrev is_observed : {A : Type 0} → CanonicalReason A → Bool
is_observed (observed_in o d) = true
is_observed (assumed d) = false
is_observed (anchored a d) = false

module _ {A : Type 0} (anchor : Anchor A) (graph : TxGraph A) where
  abbrev needs_check : CanonicalReason A → Bool
  needs_check reason = not (is_observed reason) && (is_transitive reason || is_assumed reason)

  abbrev add_check : ℕ → Option (List A) → List (ℕ × List A) → List (ℕ × List A)
  add_check txid none rest = rest
  add_check txid (some anchors) rest = (txid, anchors) ∷ rest

  -- The loop of `new`.
  unfoldable pub checks_of : CanonicalMap A → List ℕ → List (ℕ × List A)
  checks_of txs [] = []
  checks_of txs (txid ∷ order) =
      let rest = checks_of txs order in
      elim (BtreeMap.get txid txs) [
        | none ↦ rest
        | some entry ↦
            if needs_check entry.1
            then add_check txid (BtreeMap.get txid graph.anchors) rest
            else rest
      ]

  -- `view_task` of the first task's result.
  unfoldable pub new : CanonicalTxs A → CanonicalViewTask A
  new view = record {
    tip = view.tip;
    canonical_order = view.order;
    canonical_txs = view.txs;
    spends = view.spends;
    unprocessed_anchor_checks = checks_of view.txs view.order;
    direct_anchors = [];
    current_stage = resolving_positions;
  }

  abbrev ask_front :
      CanonicalViewTask A → List (ℕ × List A) → CanonicalViewTask A × Option ChainRequest
  ask_front self [] = (record self { current_stage = finished }, none)
  ask_front self ((txid, anchors) ∷ rest) = (self, some (map anchor.anchor_block anchors))

  abbrev next_in : ViewStage → CanonicalViewTask A → CanonicalViewTask A × Option ChainRequest
  next_in resolving_positions self = ask_front self self.unprocessed_anchor_checks
  next_in finished self = (self, none)

  pub next_query : CanonicalViewTask A → CanonicalViewTask A × Option ChainRequest
  next_query self = next_in self.current_stage self

  abbrev find_anchor : BlockId → List A → Option A
  find_anchor block_id [] = none
  find_anchor block_id (a ∷ anchors) =
      let rest = find_anchor block_id anchors in
      if block_id_eq (anchor.anchor_block a) block_id then some a else rest

  abbrev add_direct : ℕ → Option A → BtreeMap A → BtreeMap A
  add_direct txid none direct = direct
  add_direct txid (some best_anchor) direct = BtreeMap.insert txid best_anchor direct

  abbrev resolve_front :
      CanonicalViewTask A → List (ℕ × List A) → ChainResponse → CanonicalViewTask A
  resolve_front self [] response = self
  resolve_front self ((txid, anchors) ∷ rest) response = record self {
    unprocessed_anchor_checks = rest;
    direct_anchors =
        add_direct txid (and_then response (λ block_id. find_anchor block_id anchors))
          self.direct_anchors;
  }

  abbrev resolve_in : ViewStage → CanonicalViewTask A → ChainResponse → CanonicalViewTask A
  resolve_in resolving_positions self response =
      resolve_front self self.unprocessed_anchor_checks response
  resolve_in finished self response = self

  pub resolve_query : CanonicalViewTask A → ChainResponse → CanonicalViewTask A
  resolve_query self response = resolve_in self.current_stage self response

  -- The walk over the descendants that are canonical, until one has a direct anchor.
  unfoldable pub find_descendant : CanonicalViewTask A → ℕ → IdSet → List ℕ → Option (A × ℕ)
  find_descendant self fuel visited [] = none
  find_descendant self zero visited (txid ∷ queue) = elim (IdSet.contains visited txid) [
    | true ↦ find_descendant self zero visited queue
    | false ↦ none
  ]
  find_descendant self (suc fuel) visited (txid ∷ queue) = elim (IdSet.contains visited txid) [
    | true ↦ find_descendant self (suc fuel) visited queue
    | false ↦ elim (has_key txid self.canonical_txs) [
      | false ↦ find_descendant self fuel (IdSet.insert txid visited) queue
      | true ↦ elim (BtreeMap.get txid self.direct_anchors) [
        | some a ↦ some (a, txid)
        | none ↦
            find_descendant self fuel (IdSet.insert txid visited) (queue ++ spend_paths graph txid)
      ]
    ]
  ]

  abbrev pub walk_fuel : ℕ
  walk_fuel = length (all_spenders graph)

  unfoldable pub assumed_position : CanonicalViewTask A → ℕ → TxNode A → ChainPosition A
  assumed_position self txid node = elim (BtreeMap.get txid self.direct_anchors) [
    | some a ↦ confirmed a none
    | none ↦ elim (find_descendant self walk_fuel [] (spend_paths graph txid)) [
      | some found ↦ confirmed found.0 (some found.1)
      | none ↦ unconfirmed node.first_seen node.last_seen
    ]
  ]

  abbrev anchored_position : CanonicalViewTask A → ℕ → A → Option ℕ → ChainPosition A
  anchored_position self txid a none = confirmed a none
  anchored_position self txid a (some descendant) = elim (BtreeMap.get txid self.direct_anchors) [
    | some direct ↦ confirmed direct none
    | none ↦ confirmed a (some descendant)
  ]

  unfoldable pub position_of :
      CanonicalViewTask A → ℕ → TxNode A → CanonicalReason A → ChainPosition A
  position_of self txid node (assumed d) = assumed_position self txid node
  position_of self txid node (anchored a d) = anchored_position self txid a d
  position_of self txid node (observed_in (mempool last_seen) d) =
      unconfirmed node.first_seen (some last_seen)
  position_of self txid node (observed_in (block height) d) = unconfirmed node.first_seen none

  -- A canonical transaction that the graph does not have stays in the order alone.
  abbrev view_txs :
      CanonicalViewTask A
      → ℕ
      → Transaction × CanonicalReason A
      → CanonicalView A
      → BtreeMap (Transaction × ChainPosition A)
  view_txs self txid entry view = elim (get_tx_node graph txid) [
    | none ↦ view.txs
    | some node ↦ BtreeMap.insert txid (entry.0, position_of self txid node entry.1) view.txs
  ]

  pub collect_view : CanonicalViewTask A → List ℕ → CanonicalView A → CanonicalView A
  collect_view self [] view = view
  collect_view self (txid ∷ order) view = elim (BtreeMap.get txid self.canonical_txs) [
    | none ↦ collect_view self order view
    | some entry ↦
        collect_view self order
          (record view { order = view.order ++ (txid ∷ []); txs = view_txs self txid entry view })
  ]

  pub finish : CanonicalViewTask A → CanonicalView A
  finish self =
      collect_view self self.canonical_order
        (record { tip = self.tip; order = []; txs = []; spends = self.spends })

  abbrev pub view_query : ChainQuery (CanonicalViewTask A) (CanonicalView A)
  view_query = record {
    tip = λ self. self.tip;
    next_query = λ self. some (next_query self);
    resolve_query = λ self response. some (resolve_query self response);
    finish = finish;
  }
