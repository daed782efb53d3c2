-- ===== src/Chain/Canonical/Task.antt =====
-- `CanonicalTask` of `crates/chain/src/canonical_task.rs`. Its lazy iterators read an immutable
-- graph, so they are the lists of what they yield.
pub mod Kept
pub mod New
pub mod View
use bdk.Prelude.{
  ℕ, Bool, true, false, not, ◌&&◌, ◌||◌, Option, none, some, List, [], ◌∷◌, ◌++◌, map, reverse,
  and_then, map_option, get_last?, if◌then◌else◌,
}
use bdk.Prelude.BtreeMap
use bdk.Prelude.IdSet
use bdk.Core.BlockId.{BlockId, block_id_eq}
use bdk.Core.ChainQuery.{ChainRequest, ChainResponse, ChainQuery}
use bdk.Chain.Tx.{OutPoint, TxIn, Transaction}
use bdk.Chain.TxGraph.{
  Anchor, TxGraph, TxNode, get_tx, get_tx_node, is_evicted, txids_by_descending_anchor_height,
  txids_by_descending_last_seen,
}
use bdk.Chain.TxGraph.ChangeSet.{OutPointMap, insert_at}
use bdk.Chain.Canonical.Reason.{
  CanonicalReason, ObservedIn, block, mempool, new_assumed, from_anchor, from_observed_in,
}
use bdk.Chain.Canonical.View.{CanonicalTxs}
use bdk.Chain.Canonical.Mark.{Marks, has_key, mark_canonical}

pub data CanonicalStage : Type 0 where
  assumed_txs : CanonicalStage
  anchored_txs : CanonicalStage
  seen_txs : CanonicalStage
  left_over_txs : CanonicalStage
  finished : CanonicalStage

pub advance : CanonicalStage → CanonicalStage
advance assumed_txs = anchored_txs
advance anchored_txs = seen_txs
advance seen_txs = left_over_txs
advance left_over_txs = finished
advance finished = finished

pub record CanonicalTask (A : Type 0) : Type 0 where
  pub chain_tip : BlockId
  pub unprocessed_assumed_txs : List (ℕ × Transaction)
  pub unprocessed_anchored_txs : List (ℕ × (Transaction × List A))
  pub unprocessed_seen_txs : List (ℕ × (Transaction × ℕ))
  pub unprocessed_leftover_txs : List (ℕ × (Transaction × ℕ))
  pub marks : Marks A
  pub current_stage : CanonicalStage

abbrev pub filter_map {ℓ κ} : {X : Type ℓ} {Y : Type κ} → (X → Option Y) → List X → List Y
filter_map f [] = []
filter_map f (x ∷ xs) = let rest = filter_map f xs in elim (f x) [ none ↦ rest | some y ↦ y ∷ rest ]

module _ {A : Type 0} where
  unfoldable pub is_canonicalized : Marks A → ℕ → Bool
  is_canonicalized self txid = has_key txid self.canonical || IdSet.contains self.not_canonical txid

  abbrev pub no_marks : Marks A
  no_marks = record { canonical = []; not_canonical = []; canonical_order = [] }

module _ {A : Type 0} (anchor : Anchor A) (graph : TxGraph A) where
  abbrev assumed_entry : ℕ → Option (ℕ × Transaction)
  assumed_entry txid = map_option (λ tx. (txid, tx)) (get_tx graph txid)

  abbrev anchored_entry : ℕ × ℕ → Option (ℕ × (Transaction × List A))
  anchored_entry (height, txid) =
      and_then (get_tx graph txid)
        (λ tx. map_option (λ anchors. (txid, (tx, anchors))) (BtreeMap.get txid graph.anchors))

  abbrev seen_entry : ℕ × ℕ → Option (ℕ × (Transaction × ℕ))
  seen_entry (last_seen, txid) = map_option (λ tx. (txid, (tx, last_seen))) (get_tx graph txid)

  -- `params.assume_canonical` is the last argument.
  unfoldable pub new : BlockId → List ℕ → CanonicalTask A
  new chain_tip assume_canonical = record {
    chain_tip = chain_tip;
    unprocessed_assumed_txs = filter_map assumed_entry (reverse assume_canonical);
    unprocessed_anchored_txs = filter_map anchored_entry (txids_by_descending_anchor_height graph);
    unprocessed_seen_txs = filter_map seen_entry (txids_by_descending_last_seen graph);
    unprocessed_leftover_txs = [];
    marks = no_marks;
    current_stage = assumed_txs;
  }

  unfoldable pub mark_new : Marks A → ℕ → Transaction → CanonicalReason A → Marks A
  mark_new self txid tx reason =
      if is_canonicalized self txid then self else mark_canonical graph self txid tx reason

  -- The rounds of `next_query` in one stage.
  unfoldable pub run_assumed : List (ℕ × Transaction) → Marks A → Marks A
  run_assumed [] self = self
  run_assumed ((txid, tx) ∷ rest) self = run_assumed rest (mark_new self txid tx new_assumed)

  unfoldable pub run_seen : List (ℕ × (Transaction × ℕ)) → Marks A → Marks A
  run_seen [] self = self
  run_seen ((txid, (tx, last_seen)) ∷ rest) self =
      run_seen rest (mark_new self txid tx (from_observed_in (mempool last_seen)))

  -- `none`: the graph has no such transaction, the panic of `expect`.
  unfoldable pub run_leftover : List (ℕ × (Transaction × ℕ)) → Marks A → Option (Marks A)
  run_leftover [] self = some self
  run_leftover ((txid, (tx, height)) ∷ rest) self = and_then (get_tx_node graph txid) (λ node.
      run_leftover rest (
        if tx.is_coinbase || is_evicted node
        then self
        else mark_new self txid tx (from_observed_in (block height))))

  unfoldable pub next_leftover : CanonicalTask A → Option (CanonicalTask A × Option ChainRequest)
  next_leftover self =
      map_option
        (λ marks. (
          record self { unprocessed_leftover_txs = []; marks = marks; current_stage = finished },
          none,
        ))
        (run_leftover self.unprocessed_leftover_txs self.marks)

  unfoldable pub next_seen : CanonicalTask A → Option (CanonicalTask A × Option ChainRequest)
  next_seen self = next_leftover (record self {
    unprocessed_seen_txs = [];
    marks = run_seen self.unprocessed_seen_txs self.marks;
    current_stage = left_over_txs;
  })

  -- The stage of the anchored transactions, on their queue.
  unfoldable pub ask_front :
      CanonicalTask A
      → List (ℕ × (Transaction × List A))
      → Option (CanonicalTask A × Option ChainRequest)
  ask_front self [] = next_seen (record self { current_stage = seen_txs })
  ask_front self ((txid, (tx, anchors)) ∷ rest) =
      some (self, some (map anchor.anchor_block anchors))

  unfoldable pub next_anchored : CanonicalTask A → Option (CanonicalTask A × Option ChainRequest)
  next_anchored self = ask_front self self.unprocessed_anchored_txs

  unfoldable pub next_in :
      CanonicalStage → CanonicalTask A → Option (CanonicalTask A × Option ChainRequest)
  next_in assumed_txs self = next_anchored (record self {
    unprocessed_assumed_txs = [];
    marks = run_assumed self.unprocessed_assumed_txs self.marks;
    current_stage = anchored_txs;
  })
  next_in anchored_txs self = next_anchored self
  next_in seen_txs self = next_seen self
  next_in left_over_txs self = next_leftover self
  next_in finished self = some (self, none)

  unfoldable pub next_query : CanonicalTask A → Option (CanonicalTask A × Option ChainRequest)
  next_query self = next_in self.current_stage self

  abbrev find_anchor : BlockId → List A → Option A
  find_anchor block_id [] = none
  find_anchor block_id (a ∷ anchors) =
      let rest = find_anchor block_id anchors in
      if block_id_eq (anchor.anchor_block a) block_id then some a else rest

  -- The response for the front of the queue. `none`: it has no anchor, the panic of `expect`.
  unfoldable pub resolve_front :
      CanonicalTask A → ℕ → Transaction → List A → ChainResponse → Option (CanonicalTask A)
  resolve_front self txid tx anchors response =
      elim (and_then response (λ block_id. find_anchor block_id anchors)) [
        | some best_anchor ↦
            some (record self { marks = mark_new self.marks txid tx (from_anchor best_anchor) })
        | none ↦
            map_option
              (λ last. record self {
                unprocessed_leftover_txs =
                    self.unprocessed_leftover_txs
                    ++ ((txid, (tx, anchor.confirmation_height_upper_bound last)) ∷ []);
              })
              (get_last? anchors)
      ]

  unfoldable pub resolve_anchored :
      CanonicalTask A → List (ℕ × (Transaction × List A)) → ChainResponse → Option (CanonicalTask A)
  resolve_anchored self [] response = some self
  resolve_anchored self ((txid, (tx, anchors)) ∷ rest) response =
      resolve_front (record self { unprocessed_anchored_txs = rest }) txid tx anchors response

  -- The assertions of the other stages are those of a debug build.
  unfoldable pub resolve_in :
      CanonicalStage → CanonicalTask A → ChainResponse → Option (CanonicalTask A)
  resolve_in anchored_txs self response =
      resolve_anchored self self.unprocessed_anchored_txs response
  resolve_in assumed_txs self response = some self
  resolve_in seen_txs self response = some self
  resolve_in left_over_txs self response = some self
  resolve_in finished self response = some self

  unfoldable pub resolve_query : CanonicalTask A → ChainResponse → Option (CanonicalTask A)
  resolve_query self response = resolve_in self.current_stage self response

abbrev spend_all : ℕ → List TxIn → OutPointMap ℕ → OutPointMap ℕ
spend_all txid [] spends = spends
spend_all txid (txin ∷ inputs) spends =
    spend_all txid inputs (insert_at txin.previous_output txid spends)

module _ {A : Type 0} where
  -- The loop over the canonical order.
  unfoldable pub collect_view : Marks A → List ℕ → CanonicalTxs A → CanonicalTxs A
  collect_view self [] view = view
  collect_view self (txid ∷ rest) view = elim (BtreeMap.get txid self.canonical) [
    | none ↦ collect_view self rest view
    | some entry ↦ collect_view self rest (record view {
      order = view.order ++ (txid ∷ []);
      txs = BtreeMap.insert txid entry view.txs;
      spends =
          if entry.0.is_coinbase then view.spends else spend_all txid entry.0.input view.spends;
    })
  ]

  unfoldable pub finish : CanonicalTask A → CanonicalTxs A
  finish self =
      collect_view self.marks self.marks.canonical_order
        (record { tip = self.chain_tip; order = []; txs = []; spends = [] })

abbrev pub canonical_query :
    {A : Type 0} → Anchor A → TxGraph A → ChainQuery (CanonicalTask A) (CanonicalTxs A)
canonical_query anchor graph = record {
  tip = λ self. self.chain_tip;
  next_query = next_query anchor graph;
  resolve_query = resolve_query anchor graph;
  finish = finish;
}
