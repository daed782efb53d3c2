-- ===== src/Chain/TxGraph/ChangeSet.antt =====
-- `ChangeSet` of `crates/chain/src/tx_graph.rs` and its merge.
use Prim.Native.Nat.{Ordering}
use bdk.Prelude.{
  ℕ, Bool, true, ◌&&◌, Option, none, some, List, [], ◌∷◌, ◌++◌, map, filter, ltb, ◌==◌,
  if◌then◌else◌,
}
use bdk.Prelude.BtreeMap
use bdk.Prelude.BtreeMap.{BtreeMap}
use bdk.Prelude.BtreeSet
use bdk.Core.Merge
use bdk.Core.Merge.{list_is_empty}
use bdk.Chain.Tx.{OutPoint, TxOut, Transaction}
use bdk.Chain.TxGraph.{Anchor, or_empty, concat_map, enumerate_from}

-- A map by outpoint is a map by transaction id of maps by output number.
abbrev pub OutPointMap : Type 0 → Type 0
OutPointMap V = BtreeMap (BtreeMap V)

unfoldable pub insert_at : {V : Type 0} → OutPoint → V → OutPointMap V → OutPointMap V
insert_at op v m =
    BtreeMap.insert op.txid (BtreeMap.insert op.vout v (or_empty (BtreeMap.get op.txid m))) m

abbrev pub entries_of : {V : Type 0} → ℕ × BtreeMap V → List (OutPoint × V)
entries_of (txid, outs) = map (λ e. (record { txid = txid; vout = e.0 }, e.1)) outs

abbrev pub entries : {V : Type 0} → OutPointMap V → List (OutPoint × V)
entries m = concat_map entries_of m

pub insert_all : {V : Type 0} → OutPointMap V → List (OutPoint × V) → OutPointMap V
insert_all m [] = m
insert_all m ((op, v) ∷ rest) = insert_all (insert_at op v m) rest

pub record ChangeSet (A : Type 0) : Type 0 where
  pub txs : List Transaction
  pub txouts : OutPointMap TxOut
  pub anchors : List (A × ℕ)
  pub last_seen : BtreeMap ℕ
  pub last_evicted : BtreeMap ℕ
  pub first_seen : BtreeMap ℕ

-- The orders of the elements of the sets of a change set: that of anchors is `Anchor.cmp`, and
-- that of transactions is the one of the library.
abbrev pub cmp_anchored : {A : Type 0} → (A → A → Ordering) → A × ℕ → A × ℕ → Ordering
cmp_anchored cmp (a, i) (b, j) = elim (cmp a b) [
  | Ordering.eq ↦ Prim.Native.Nat.compare i j
  | o ↦ o
]

-- The test of `filter` on `first_seen`.
abbrev pub is_earlier : BtreeMap ℕ → ℕ × ℕ → Bool
is_earlier self (txid, update_fs) = elim (BtreeMap.get txid self) [
  | some existing ↦ ltb update_fs existing
  | none ↦ true
]

-- The test of `filter` on `last_seen` and `last_evicted`: `None` is below every `Some`.
abbrev pub is_later : BtreeMap ℕ → ℕ × ℕ → Bool
is_later self (txid, update_ls) = elim (BtreeMap.get txid self) [
  | some existing ↦ ltb existing update_ls
  | none ↦ true
]

unfoldable pub merge_first : BtreeMap ℕ → BtreeMap ℕ → BtreeMap ℕ
merge_first self other = Merge.extend self (filter (is_earlier self) other)

unfoldable pub merge_last : BtreeMap ℕ → BtreeMap ℕ → BtreeMap ℕ
merge_last self other = Merge.extend self (filter (is_later self) other)

-- The outputs of one transaction, with their outpoints.
abbrev txouts_of : Transaction → List (OutPoint × TxOut)
txouts_of tx = map (λ e. (record { txid = tx.txid; vout = e.0 }, e.1)) (enumerate_from 0 tx.output)

-- The heights that differ from the one before.
pub dedup_heights : Option ℕ → List ℕ → List ℕ
dedup_heights dedup [] = []
dedup_heights dedup (h ∷ hs) =
    let rest = dedup_heights (some h) hs in
    elim dedup [ none ↦ h ∷ rest | some d ↦ if d == h then rest else h ∷ rest ]

module _ {A : Type 0} where
  -- `Default`.
  abbrev pub empty : ChangeSet A
  empty = record {
    txs = [];
    txouts = [];
    anchors = [];
    last_seen = [];
    last_evicted = [];
    first_seen = [];
  }

  pub txouts : ChangeSet A → List (OutPoint × TxOut)
  txouts self = concat_map txouts_of self.txs ++ entries self.txouts

  pub anchor_heights : Anchor A → ChangeSet A → List ℕ
  anchor_heights anchor self =
      dedup_heights none (map (λ (e : A × ℕ). (anchor.anchor_block e.0).height) self.anchors)

  unfoldable pub merge :
      (A → A → Ordering)
      → (Transaction → Transaction → Ordering)
      → ChangeSet A
      → ChangeSet A
      → ChangeSet A
  merge cmp cmp_tx self other = record {
    txs = BtreeSet.extend cmp_tx self.txs other.txs;
    txouts = insert_all self.txouts (entries other.txouts);
    anchors = BtreeSet.extend (cmp_anchored cmp) self.anchors other.anchors;
    first_seen = merge_first self.first_seen other.first_seen;
    last_seen = merge_last self.last_seen other.last_seen;
    last_evicted = merge_last self.last_evicted other.last_evicted;
  }

  pub is_empty : ChangeSet A → Bool
  is_empty self =
      list_is_empty self.txs
      && (list_is_empty self.txouts
          && (list_is_empty self.anchors
              && (list_is_empty self.first_seen
                  && (list_is_empty self.last_seen && list_is_empty self.last_evicted))))

pub map_anchors : {A B : Type 0} → (B → B → Ordering) → (A → B) → ChangeSet A → ChangeSet B
map_anchors cmp f self = record {
  txs = self.txs;
  txouts = self.txouts;
  anchors = BtreeSet.extend (cmp_anchored cmp) [] (map (λ e. (f e.0, e.1)) self.anchors);
  first_seen = self.first_seen;
  last_seen = self.last_seen;
  last_evicted = self.last_evicted;
}
