-- ===== src/Chain/Canonical/Tests.antt =====
-- Runs and instances of the transaction graph and of canonicalization: transactions 1 and 2 spend
-- the same output, and 3 spends an output of 2.
use Prim.Native.Nat.{Ordering, compare}
use bdk.Prelude.{ℕ, ◌+◌, ◌≡◌, refl, true, false, none, some, List, [], ◌∷◌, map, length, arith}
use bdk.Prelude.BtreeMap
use bdk.Prelude.BtreeSet
use bdk.Prelude.IdSet
use bdk.Core.BlockId.{BlockId}
use bdk.Core.Checkpoint.{base}
use bdk.Chain.ChainPosition.{confirmed}
use bdk.Chain.LocalChain.{LocalChain}
use bdk.Chain.LocalChain.Canonicalize.{done, canonicalize, canonicalize-SpendsOnce}
use bdk.Chain.Tx.{OutPoint, TxIn, Transaction}
use bdk.Chain.TxGraph.{
  TxNode, Anchor, TxGraph, empty, outspends, tx_spends, direct_conflicts, get_tx, get_tx_node,
}
use bdk.Chain.TxGraph.ChangeSet as Changes
use bdk.Chain.TxGraph.ChangeSet.{ChangeSet, insert_at, merge}
use bdk.Chain.TxGraph.Insert.{insert_tx, add_spends}
use bdk.Chain.TxGraph.Insert.Index.{IsIndexed, AreIds, insert_tx-IsIndexed, insert_tx-AreIds}
use bdk.Chain.TxGraph.Conflicts.{contains-direct_conflicts}
use bdk.Chain.TxGraph.Seen.{update_first_seen, update_last_seen}
use bdk.Chain.TxGraph.Apply.{insert_seen_at, initial_changeset, from_changeset, apply_changeset}
use bdk.Chain.TxGraph.Apply.Replay.{from_changeset-initial_changeset}
use bdk.Chain.TxGraph.Apply.Merged.{apply_changeset-merge}
use bdk.Chain.Canonical.Reason.{new_assumed}
use bdk.Chain.Canonical.Descend.{Pruned, descend, prune_each, prune_conflicts}
use bdk.Chain.Canonical.Descend.Enough.{IsClosedBut, prune_each-IsClosed}
use bdk.Chain.Canonical.ViewTask.{CanonicalViewTask, finished, find_descendant, assumed_position}
use bdk.Chain.Canonical.Mark.{
  Marks, mark_canonical, ascend, visit, mark_fuel, start_marking, settle, populate_queue,
}
use bdk.Chain.Canonical.Mark.Kept.{IsMarks, marking_of, mark_canonical-IsMarks, mark_canonical-undo}
use bdk.Chain.Canonical.Mark.Enough.{ascend_enough}
use bdk.Chain.Canonical.Task.View.{SpendsOnce}
use bdk.Chain.TxGraph.Seen.Laws.{IsSeenIndexed}
use bdk.Chain.Canonical.View.{CanonicalTxs}
use bdk.Chain.Canonical.Task.{canonical_query, new, no_marks}
use bdk.Chain.Canonical.Task.Kept.{HasLast}
use bdk.Chain.Canonical.Task.New.{HasAnchors, no_marks-IsMarked}

abbrev by_block : Anchor BlockId
by_block = record {
  anchor_block = λ b. b;
  confirmation_height_upper_bound = λ b. b.height;
  cmp = λ a b. BtreeSet.cmp_pair (a.height, a.hash) (b.height, b.hash);
}

abbrev by_txid : Transaction → Transaction → Ordering
by_txid a b = compare a.txid b.txid

abbrev outpoint : ℕ → ℕ → OutPoint
outpoint t v = record { txid = t; vout = v }

abbrev input_of : ℕ → ℕ → TxIn
input_of t v = record {
  previous_output = outpoint t v;
  is_null = false;
  witness = record { is_empty = true; size = 1; rank = 0 };
}

abbrev tx_of : ℕ → List TxIn → Transaction
tx_of i inputs = record {
  txid = i;
  is_coinbase = false;
  input = inputs;
  output = (record { value = 7; script_pubkey = 0 }) ∷ [];
}

abbrev tx1 : Transaction
tx1 = tx_of 1 (input_of 9 0 ∷ [])

abbrev tx2 : Transaction
tx2 = tx_of 2 (input_of 9 0 ∷ input_of 8 0 ∷ [])

abbrev tx3 : Transaction
tx3 = tx_of 3 (input_of 2 0 ∷ [])

abbrev graph1 : TxGraph BlockId
graph1 = (insert_tx empty tx1).0

abbrev graph2 : TxGraph BlockId
graph2 = (insert_tx graph1 tx2).0

abbrev graph3 : TxGraph BlockId
graph3 = (insert_tx graph2 tx3).0

empty-IsIndexed : IsIndexed (empty {A = BlockId})
unfolding outspends IdSet.contains BtreeMap.get
empty-IsIndexed op i = refl

empty-AreIds : AreIds (empty {A = BlockId})
unfolding BtreeMap.get
empty-AreIds i tx h = cc

graph1-IsIndexed : IsIndexed graph1
unfolding BtreeMap.get
graph1-IsIndexed = insert_tx-IsIndexed empty tx1 empty-IsIndexed (λ e h. cc)

graph2-IsIndexed : IsIndexed graph2
unfolding insert_tx BtreeMap.get BtreeMap.insert
graph2-IsIndexed = insert_tx-IsIndexed graph1 tx2 graph1-IsIndexed (λ e h. cc)

graph3-IsIndexed : IsIndexed graph3
unfolding insert_tx BtreeMap.get BtreeMap.insert
graph3-IsIndexed = insert_tx-IsIndexed graph2 tx3 graph2-IsIndexed (λ e h. cc)

insert_tx-IsIndexed_example : IsIndexed graph3
unfolding insert_tx BtreeMap.get BtreeMap.insert
insert_tx-IsIndexed_example = insert_tx-IsIndexed graph2 tx3 graph2-IsIndexed (λ e h. cc)

graph3-AreIds : AreIds graph3
graph3-AreIds =
    insert_tx-AreIds graph2 tx3
      (insert_tx-AreIds graph1 tx2 (insert_tx-AreIds empty tx1 empty-AreIds))

contains-direct_conflicts_example :
    IdSet.contains (map (λ e. e.1) (direct_conflicts graph3 tx1)) 2 ≡ true
unfolding insert_tx BtreeMap.get BtreeMap.insert
contains-direct_conflicts_example = contains-direct_conflicts graph3 tx1 2 graph3-IsIndexed

abbrev no_spends : IdSet.IdSet
no_spends = []

abbrev nothing_pruned : Pruned
nothing_pruned = record { not_canonical = []; undo = [] }

-- Transaction 1 conflicts with 2, and 3 descends from 2.
prune_each_run : (prune_each graph3 (2 ∷ []) nothing_pruned).not_canonical ≡ 2 ∷ 3 ∷ []
unfolding prune_each descend tx_spends insert_tx add_spends insert_at IdSet.insert IdSet.contains
    BtreeMap.get BtreeMap.insert
prune_each_run = refl

no_marks-IsMarks : IsMarks graph3 no_marks
no_marks-IsMarks = no_marks-IsMarked by_block graph3

mark_canonical-IsMarks_example : IsMarks graph3 (mark_canonical graph3 no_marks 1 tx1 new_assumed)
unfolding insert_tx BtreeMap.get BtreeMap.insert
mark_canonical-IsMarks_example =
    mark_canonical-IsMarks graph3 no_marks 1 tx1 new_assumed graph3-AreIds refl no_marks-IsMarks

ascend_enough_example :
    ascend graph3 (5 + mark_fuel graph3) new_assumed 3 [] (tx3 ∷ []) (start_marking no_marks)
    ≡ marking_of graph3 no_marks 3 tx3 new_assumed
unfolding insert_tx BtreeMap.get BtreeMap.insert
ascend_enough_example = ascend_enough graph3 no_marks 5 3 tx3 new_assumed graph3-AreIds refl

-- Once 1 is canonical, 3 cannot be: its parent 2 is rejected.
abbrev marks1 : Marks BlockId
marks1 = mark_canonical graph3 no_marks 1 tx1 new_assumed

marks1-IsMarks : IsMarks graph3 marks1
unfolding insert_tx BtreeMap.get BtreeMap.insert
marks1-IsMarks =
    mark_canonical-IsMarks graph3 no_marks 1 tx1 new_assumed graph3-AreIds refl no_marks-IsMarks

mark_canonical-undo_example :
    (((i : ℕ)
        → BtreeMap.get i (mark_canonical graph3 marks1 3 tx3 new_assumed).canonical
          ≡ BtreeMap.get i marks1.canonical)
      × ((j : ℕ)
          → IdSet.contains (mark_canonical graph3 marks1 3 tx3 new_assumed).not_canonical j
            ≡ IdSet.contains marks1.not_canonical j))
    × ((mark_canonical graph3 marks1 3 tx3 new_assumed).canonical_order ≡ marks1.canonical_order)
unfolding insert_tx add_spends insert_at BtreeMap.get BtreeMap.insert IdSet.insert IdSet.contains
    ascend visit mark_canonical settle prune_conflicts prune_each descend direct_conflicts outspends
    populate_queue get_tx get_tx_node tx_spends
mark_canonical-undo_example =
    mark_canonical-undo graph3 marks1 3 tx3 new_assumed graph3-AreIds refl marks1-IsMarks refl

prune_each-IsClosed_example :
    IsClosedBut graph3 [] (prune_each graph3 (2 ∷ []) nothing_pruned).not_canonical
unfolding IdSet.contains
prune_each-IsClosed_example = prune_each-IsClosed graph3 (2 ∷ []) nothing_pruned (λ t j x y. x)

abbrev no_chain : LocalChain ℕ
no_chain = record { tip = base (record { height = 0; hash = 5 }) 5 }

no_anchors :
    (i : ℕ) (anchors : List BlockId)
    → BtreeMap.get {V = List BlockId} i [] ≡ some anchors
    → HasLast by_block graph3 anchors
unfolding BtreeMap.get
no_anchors i anchors h = ground (arith, h)

graph3-HasAnchors : HasAnchors by_block graph3
unfolding insert_tx BtreeMap.get BtreeMap.insert
graph3-HasAnchors i anchors h = no_anchors i anchors h

canonicalize-SpendsOnce_example :
    (view : CanonicalTxs BlockId) × ((canonicalize no_chain
          (canonical_query by_block graph3)
          (length
            (new by_block graph3
              (record { height = 0; hash = 5 })
              (2 ∷ 1 ∷ [])).unprocessed_anchored_txs)
          (new by_block graph3 (record { height = 0; hash = 5 }) (2 ∷ 1 ∷ []))
        ≡ done view)
      × SpendsOnce view.txs)
unfolding insert_tx BtreeMap.get
canonicalize-SpendsOnce_example =
    canonicalize-SpendsOnce no_chain by_block graph3 (record { height = 0; hash = 5 }) (2 ∷ 1 ∷ [])
      graph3-AreIds graph3-HasAnchors graph3-IsIndexed

-- A graph in which transaction 1 was seen at 30 and before, at 10.
abbrev seen_once : TxGraph BlockId
seen_once = (insert_seen_at by_block by_txid graph1 1 30).0

abbrev seen_twice : TxGraph BlockId
seen_twice = (insert_seen_at by_block by_txid seen_once 1 10).0

empty-IsSeenIndexed : IsSeenIndexed graph1
unfolding insert_tx BtreeSet.contains BtreeMap.get
empty-IsSeenIndexed t i = refl

abbrev seen_changes : ChangeSet BlockId
seen_changes = record Changes.empty {
  last_seen = (1, 30) ∷ (2, 5) ∷ [];
  first_seen = (1, 10) ∷ [];
  last_evicted = (2, 6) ∷ [];
}

from_changeset-initial_changeset_example :
    (BtreeMap.get 1
        (from_changeset by_block by_txid (initial_changeset by_block by_txid seen_twice)).last_seen
      ≡ some 30)
    × ((BtreeMap.get 1
            (from_changeset by_block by_txid
              (initial_changeset by_block by_txid seen_twice)).last_evicted
          ≡ none)
        × (BtreeMap.get 1
              (from_changeset by_block by_txid
                (initial_changeset by_block by_txid seen_twice)).first_seen
            ≡ some 30))
unfolding insert_tx insert_seen_at update_first_seen update_last_seen BtreeMap.get BtreeMap.insert
from_changeset-initial_changeset_example =
    from_changeset-initial_changeset by_block by_txid seen_twice 1 (tt, tt) tt

seen_twice_first : BtreeMap.get 1 seen_twice.first_seen ≡ some 10
unfolding insert_tx insert_seen_at update_first_seen update_last_seen BtreeMap.get BtreeMap.insert
seen_twice_first = refl

apply_changeset-merge_example :
    (BtreeMap.get 1
        (apply_changeset by_block by_txid graph1
          (merge by_block.cmp by_txid seen_changes seen_changes)).last_seen
      ≡ BtreeMap.get 1
          (apply_changeset by_block by_txid
            (apply_changeset by_block by_txid graph1 seen_changes)
            seen_changes).last_seen)
    × (BtreeMap.get 1
          (apply_changeset by_block by_txid graph1
            (merge by_block.cmp by_txid seen_changes seen_changes)).last_evicted
        ≡ BtreeMap.get 1
            (apply_changeset by_block by_txid
              (apply_changeset by_block by_txid graph1 seen_changes)
              seen_changes).last_evicted)
apply_changeset-merge_example =
    apply_changeset-merge by_block by_txid graph1 seen_changes seen_changes 1
      (((omega arith, tt), (tt, tt)), ((tt, tt), (tt, tt)))
      (((omega arith, tt), (tt, tt)), ((tt, tt), (tt, tt)))

abbrev block_4 : BlockId
block_4 = record { height = 4; hash = 44 }

-- 2 and 3 are canonical, and 3 has an anchor in the chain.
abbrev view_task : CanonicalViewTask BlockId
view_task = record {
  tip = block_4;
  canonical_order = 2 ∷ 3 ∷ [];
  canonical_txs = (2, (tx2, new_assumed)) ∷ (3, (tx3, new_assumed)) ∷ [];
  spends = [];
  unprocessed_anchor_checks = [];
  direct_anchors = (3, block_4) ∷ [];
  current_stage = finished;
}

abbrev node2 : TxNode BlockId
node2 = record {
  txid = 2;
  tx = tx2;
  anchors = [];
  first_seen = none;
  last_seen = none;
  last_evicted = none;
}

assumed_by_descendant :
    assumed_position by_block graph3 view_task 2 node2 ≡ confirmed block_4 (some 3)
unfolding assumed_position find_descendant tx_spends insert_tx add_spends insert_at IdSet.insert
    IdSet.contains BtreeMap.get BtreeMap.insert
assumed_by_descendant = refl
