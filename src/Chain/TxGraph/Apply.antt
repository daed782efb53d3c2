-- ===== src/Chain/TxGraph/Apply.antt =====
-- Anchors, batches, updates and the change sets of a graph, of `crates/chain/src/tx_graph.rs`, and
-- `TxUpdate` of `crates/core/src/tx_update.rs`.
pub mod Replay
pub mod Merged
use Prim.Native.Nat.{Ordering}
use bdk.Prelude.{
  ℕ, Bool, true, false, not, Option, none, some, List, [], ◌∷◌, ◌++◌, map, map_option, get_last?,
  max, ltb, ◌==◌, if◌then◌else◌,
}
use bdk.Prelude.BtreeMap
use bdk.Prelude.BtreeMap.{BtreeMap}
use bdk.Prelude.BtreeSet
use bdk.Prelude.BtreeSet.{cmp_pair}
use bdk.Chain.Tx.{OutPoint, TxOut, Transaction}
use bdk.Chain.TxGraph.{
  Anchor, TxGraph, TxNode, TxNodeInternal, whole, partial, concat_map, full_txs, empty,
}
use bdk.Chain.TxGraph.ChangeSet as Changes
use bdk.Chain.TxGraph.ChangeSet.{ChangeSet, OutPointMap, entries, cmp_anchored, merge}
use bdk.Chain.TxGraph.Insert.{insert_tx, insert_txout}
use bdk.Chain.TxGraph.Seen.{update_first_seen, update_last_seen, insert_evicted_at, remove_old}

pub record TxUpdate (A : Type 0) : Type 0 where
  pub txs : List Transaction
  pub txouts : OutPointMap TxOut
  pub anchors : List (A × ℕ)
  pub seen_ats : List (ℕ × ℕ)
  pub evicted_ats : List (ℕ × ℕ)

-- The partial nodes of the graph: `floating_txouts`, collected into a map.
pub floating_txouts : BtreeMap TxNodeInternal → OutPointMap TxOut
floating_txouts [] = []
floating_txouts ((txid, whole tx) ∷ rest) = floating_txouts rest
floating_txouts ((txid, partial txouts) ∷ rest) = (txid, txouts) ∷ floating_txouts rest

abbrev anchored_by : {A : Type 0} → ℕ × List A → List (A × ℕ)
anchored_by (txid, anchors) = map (λ a. (a, txid)) anchors

abbrev is_new_top : Option ℕ → ℕ → Bool
is_new_top none new_top_h = true
is_new_top (some old_top_h) new_top_h = not (old_top_h == new_top_h)

module _ {A : Type 0} where
  abbrev pub evict : TxGraph A → ℕ × ℕ → TxGraph A × ChangeSet A
  evict self (txid, evicted_at) = insert_evicted_at self txid evicted_at

  abbrev pub add_txout : TxGraph A → OutPoint × TxOut → TxGraph A × ChangeSet A
  add_txout self (op, txout) = insert_txout self op txout

module _ {A : Type 0} (anchor : Anchor A) where
  -- The height of the last of a transaction's anchors.
  pub old_top : Option (List A) → Option ℕ
  old_top none = none
  old_top (some anchors) = map_option anchor.confirmation_height_upper_bound (get_last? anchors)

  abbrev new_top : Option ℕ → ℕ → ℕ
  new_top none h = h
  new_top (some old_top_h) h = if ltb h old_top_h then old_top_h else h

  abbrev is_anchored : Option (List A) → A → Bool
  is_anchored none a = false
  is_anchored (some anchors) a = BtreeSet.contains anchor.cmp anchors a

  abbrev with_anchor : Option (List A) → A → List A
  with_anchor none a = a ∷ []
  with_anchor (some anchors) a = BtreeSet.insert anchor.cmp a anchors

  abbrev index_heights : Option ℕ → ℕ → ℕ → List (ℕ × ℕ) → List (ℕ × ℕ)
  index_heights old_top_h new_top_h txid heights =
      if is_new_top old_top_h new_top_h
      then BtreeSet.insert cmp_pair (new_top_h, txid) (remove_old old_top_h txid heights)
      else heights

  unfoldable pub insert_anchor : TxGraph A → ℕ → A → TxGraph A × ChangeSet A
  insert_anchor self txid a =
      let entry = BtreeMap.get txid self.anchors in
      let old_top_h = old_top entry in
      let new_top_h = new_top old_top_h (anchor.confirmation_height_upper_bound a) in
      if is_anchored entry a then (self, Changes.empty) else (
        record self {
          anchors = BtreeMap.insert txid (with_anchor entry a) self.anchors;
          txs_by_highest_conf_heights =
              index_heights old_top_h new_top_h txid self.txs_by_highest_conf_heights;
        },
        record Changes.empty { anchors = (a, txid) ∷ [] },
      )

  abbrev pub add_anchor : TxGraph A → A × ℕ → TxGraph A × ChangeSet A
  add_anchor self (a, txid) = insert_anchor self txid a

-- An operation on each of a list, its changes dropped.
unfoldable pub each :
    {A X : Type 0} → (TxGraph A → X → TxGraph A × ChangeSet A) → TxGraph A → List X → TxGraph A
each op self [] = self
each op self (x ∷ xs) = each op (op self x).0 xs

-- `anchor` is the interface of anchors, `cmp_tx` the order of the library's transactions.
module _ {A : Type 0} (anchor : Anchor A) (cmp_tx : Transaction → Transaction → Ordering) where
  abbrev pub merges : ChangeSet A → ChangeSet A → ChangeSet A
  merges = merge anchor.cmp cmp_tx

  unfoldable pub insert_seen_at : TxGraph A → ℕ → ℕ → TxGraph A × ChangeSet A
  insert_seen_at self txid seen_at =
      let first = update_first_seen self txid seen_at in
      let last = update_last_seen first.0 txid seen_at in (last.0, merges first.1 last.1)

  -- An operation that returns its changes, on each of a list, the changes merged.
  unfoldable pub for_each :
      {X : Type 0}
      → (TxGraph A → X → TxGraph A × ChangeSet A)
      → TxGraph A × ChangeSet A
      → List X
      → TxGraph A × ChangeSet A
  for_each op state [] = state
  for_each op (self, changeset) (x ∷ xs) =
      let next = op self x in for_each op (next.0, merges changeset next.1) xs

  abbrev insert_unconfirmed : TxGraph A → Transaction × ℕ → TxGraph A × ChangeSet A
  insert_unconfirmed self (tx, seen_at) =
      let seen = insert_seen_at self tx.txid seen_at in
      let inserted = insert_tx seen.0 tx in (inserted.0, merges seen.1 inserted.1)

  pub batch_insert_unconfirmed : TxGraph A → List (Transaction × ℕ) → TxGraph A × ChangeSet A
  batch_insert_unconfirmed self txs = for_each insert_unconfirmed (self, Changes.empty) txs

  abbrev evict_relevant : TxGraph A → ℕ × ℕ → TxGraph A × ChangeSet A
  evict_relevant self (txid, evicted_at) = elim (BtreeMap.get txid self.txs) [
    | some node ↦ insert_evicted_at self txid evicted_at
    | none ↦ (self, Changes.empty)
  ]

  pub batch_insert_relevant_evicted_at : TxGraph A → List (ℕ × ℕ) → TxGraph A × ChangeSet A
  batch_insert_relevant_evicted_at self evicted_ats =
      for_each evict_relevant (self, Changes.empty) evicted_ats

  abbrev pub see : TxGraph A → ℕ × ℕ → TxGraph A × ChangeSet A
  see self (txid, seen_at) = insert_seen_at self txid seen_at

  pub apply_update : TxGraph A → TxUpdate A → TxGraph A × ChangeSet A
  apply_update self update =
      let txs = for_each insert_tx (self, Changes.empty) update.txs in
      let txouts = for_each add_txout txs (entries update.txouts) in
      let anchors = for_each (add_anchor anchor) txouts update.anchors in
      let seen = for_each see anchors update.seen_ats in for_each evict seen update.evicted_ats

  unfoldable pub initial_changeset : TxGraph A → ChangeSet A
  initial_changeset self = record {
    txs = BtreeSet.extend cmp_tx [] (map (λ (n : TxNode A). n.tx) (full_txs self));
    txouts = floating_txouts self.txs;
    anchors = BtreeSet.extend (cmp_anchored anchor.cmp) [] (concat_map anchored_by self.anchors);
    first_seen = self.first_seen;
    last_seen = self.last_seen;
    last_evicted = self.last_evicted;
  }

  unfoldable pub apply_changeset : TxGraph A → ChangeSet A → TxGraph A
  apply_changeset self changeset =
      let txs = each insert_tx self changeset.txs in
      let txouts = each add_txout txs (entries changeset.txouts) in
      let anchors = each (add_anchor anchor) txouts changeset.anchors in
      let seen = each see anchors changeset.last_seen in each evict seen changeset.last_evicted

  unfoldable pub from_changeset : ChangeSet A → TxGraph A
  from_changeset changeset = apply_changeset empty changeset
