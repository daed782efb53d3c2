-- ===== src/Chain/TxGraph.antt =====
-- `TxGraph` of `crates/chain/src/tx_graph.rs`: transactions, what spends what, and when and where
-- each was seen. A hash map by transaction id is a map by number; a map by outpoint is a map by
-- transaction id of maps by output number, so that the range of a transaction's outpoints is one
-- of its entries.
pub mod ChangeSet
pub mod Insert
pub mod Seen
pub mod Apply
pub mod Conflicts
use Prim.Native.Nat.{Ordering}
use bdk.Prelude.{
  ℕ, zero, suc, ◌+◌, Bool, true, false, not, ◌&&◌, Option, none, some, List, [], ◌∷◌, ◌++◌, map,
  reverse, filter, map_option, and_then, get_elem?, ltb, leb, ◌==◌, if◌then◌else◌,
}
use bdk.Prelude.BtreeMap
use bdk.Prelude.BtreeMap.{BtreeMap}
use bdk.Prelude.IdSet
use bdk.Prelude.IdSet.{IdSet}
use bdk.Core.BlockId.{BlockId}
use bdk.Chain.Tx.{OutPoint, TxIn, TxOut, Transaction}

-- The trait `Anchor` of `crates/chain/src/tx_data_traits.rs`, and the order of its type.
pub record Anchor (A : Type 0) : Type 0 where
  pub anchor_block : A → BlockId
  pub confirmation_height_upper_bound : A → ℕ
  pub cmp : A → A → Ordering

pub data TxNodeInternal : Type 0 where
  whole : Transaction → TxNodeInternal
  partial : BtreeMap TxOut → TxNodeInternal

pub record TxGraph (A : Type 0) : Type 0 where
  pub txs : BtreeMap TxNodeInternal
  pub spends : BtreeMap (BtreeMap IdSet)
  pub anchors : BtreeMap (List A)
  pub first_seen : BtreeMap ℕ
  pub last_seen : BtreeMap ℕ
  pub last_evicted : BtreeMap ℕ
  pub txs_by_highest_conf_heights : List (ℕ × ℕ)
  pub txs_by_last_seen : List (ℕ × ℕ)

pub record TxNode (A : Type 0) : Type 0 where
  pub txid : ℕ
  pub tx : Transaction
  pub anchors : List A
  pub first_seen : Option ℕ
  pub last_seen : Option ℕ
  pub last_evicted : Option ℕ

-- `unwrap_or` of a list or set that may be missing.
abbrev pub or_empty {ℓ} : {X : Type ℓ} → Option (List X) → List X
or_empty none = []
or_empty (some xs) = xs

abbrev pub concat_map {ℓ κ} : {X : Type ℓ} {Y : Type κ} → (X → List Y) → List X → List Y
concat_map f [] = []
concat_map f (x ∷ xs) = f x ++ concat_map f xs

-- `enumerate`, from `n` on.
abbrev pub enumerate_from {ℓ} : {X : Type ℓ} → ℕ → List X → List (ℕ × X)
enumerate_from n [] = []
enumerate_from n (x ∷ xs) = (n, x) ∷ enumerate_from (suc n) xs

abbrev pub is_evicted_between : Option ℕ → Option ℕ → Bool
is_evicted_between seen none = false
is_evicted_between (some last_seen) (some last_evicted) = leb last_seen last_evicted
is_evicted_between none (some last_evicted) = true

abbrev pub whole_tx : TxNodeInternal → Option Transaction
whole_tx (whole tx) = some tx
whole_tx (partial txouts) = none

module _ {A : Type 0} where
  -- `Default`.
  abbrev pub empty : TxGraph A
  empty = record {
    txs = [];
    spends = [];
    anchors = [];
    first_seen = [];
    last_seen = [];
    last_evicted = [];
    txs_by_highest_conf_heights = [];
    txs_by_last_seen = [];
  }

  pub is_evicted : TxNode A → Bool
  is_evicted node = is_evicted_between node.last_seen node.last_evicted

  abbrev node_of : TxGraph A → ℕ → Transaction → TxNode A
  node_of self txid tx = record {
    txid = txid;
    tx = tx;
    anchors = or_empty (BtreeMap.get txid self.anchors);
    first_seen = BtreeMap.get txid self.first_seen;
    last_seen = BtreeMap.get txid self.last_seen;
    last_evicted = BtreeMap.get txid self.last_evicted;
  }

  unfoldable pub get_tx_node : TxGraph A → ℕ → Option (TxNode A)
  get_tx_node self txid =
      map_option (node_of self txid) (and_then (BtreeMap.get txid self.txs) whole_tx)

  unfoldable pub get_tx : TxGraph A → ℕ → Option Transaction
  unfolding get_tx_node
  get_tx self txid = map_option (λ (n : TxNode A). n.tx) (get_tx_node self txid)

  pub get_txout : TxGraph A → OutPoint → Option TxOut
  get_txout self outpoint = and_then (BtreeMap.get outpoint.txid self.txs) (λ node. elim node [
    | whole tx ↦ get_elem? tx.output outpoint.vout
    | partial txouts ↦ BtreeMap.get outpoint.vout txouts
  ])

  abbrev full_of : TxGraph A → BtreeMap TxNodeInternal → List (TxNode A)
  full_of self [] = []
  full_of self ((txid, whole tx) ∷ rest) = node_of self txid tx ∷ full_of self rest
  full_of self ((txid, partial txouts) ∷ rest) = full_of self rest

  pub full_txs : TxGraph A → List (TxNode A)
  full_txs self = full_of self self.txs

  unfoldable pub outspends : TxGraph A → OutPoint → IdSet
  outspends self outpoint =
      or_empty (and_then (BtreeMap.get outpoint.txid self.spends) (BtreeMap.get outpoint.vout))

  -- The entries of `spends` in `tx_outpoint_range(txid)`.
  unfoldable pub tx_spends : TxGraph A → ℕ → List (ℕ × IdSet)
  tx_spends self txid = or_empty (BtreeMap.get txid self.spends)

  -- The spenders of one input but `txid`, with the number of the input.
  abbrev input_conflicts : TxGraph A → ℕ → ℕ × TxIn → List (ℕ × ℕ)
  input_conflicts self txid (vin, txin) =
      map (λ spender. (vin, spender))
        (filter (λ spender. not (spender == txid)) (outspends self txin.previous_output))

  unfoldable pub direct_conflicts : TxGraph A → Transaction → List (ℕ × ℕ)
  direct_conflicts self tx = concat_map (input_conflicts self tx.txid) (enumerate_from 0 tx.input)

  abbrev evicted_after : TxGraph A → ℕ × ℕ → Bool
  evicted_after self (last_seen, txid) = elim (BtreeMap.get txid self.last_evicted) [
    | some last_evicted ↦ ltb last_evicted last_seen
    | none ↦ true
  ]

  unfoldable pub txids_by_descending_anchor_height : TxGraph A → List (ℕ × ℕ)
  txids_by_descending_anchor_height self = reverse self.txs_by_highest_conf_heights

  unfoldable pub txids_by_descending_last_seen : TxGraph A → List (ℕ × ℕ)
  txids_by_descending_last_seen self = filter (evicted_after self) (reverse self.txs_by_last_seen)
