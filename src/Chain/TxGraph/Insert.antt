-- ===== src/Chain/TxGraph/Insert.antt =====
-- `insert_tx` and `insert_txout` of `crates/chain/src/tx_graph.rs`.
pub mod Index
use bdk.Prelude.{
  ℕ, Bool, true, false, not, ◌&&◌, ◌||◌, Option, none, some, List, [], ◌∷◌, and_then, ltb, ◌==◌,
  if◌then◌else◌,
}
use bdk.Prelude.BtreeMap
use bdk.Prelude.BtreeMap.{BtreeMap}
use bdk.Prelude.IdSet
use bdk.Prelude.IdSet.{IdSet}
use bdk.Chain.Tx.{OutPoint, outpoint_eq, Witness, TxIn, TxOut, Transaction}
use bdk.Chain.TxGraph.{TxGraph, TxNodeInternal, whole, partial, or_empty, whole_tx}
use bdk.Chain.TxGraph.ChangeSet as Changes
use bdk.Chain.TxGraph.ChangeSet.{ChangeSet, insert_at}

abbrev bool_ltb : Bool → Bool → Bool
bool_ltb a b = not a && b

abbrev bool_eq : Bool → Bool → Bool
bool_eq true b = b
bool_eq false b = not b

-- `original_key > other_key`: the keys are reversed, so this is `<` of the triples.
pub is_preferred : Witness → Witness → Bool
is_preferred original other =
    bool_ltb original.is_empty other.is_empty
    || (bool_eq original.is_empty other.is_empty
        && (ltb original.size other.size
            || (original.size == other.size && ltb original.rank other.rank)))

abbrev merge_txin : TxIn → TxIn → TxIn
merge_txin original other = if is_preferred original.witness other.witness then original else other

unfoldable pub merge_inputs : List TxIn → List TxIn → List TxIn
merge_inputs [] others = []
merge_inputs (original ∷ originals) [] = []
merge_inputs (original ∷ originals) (other ∷ others) =
    merge_txin original other ∷ merge_inputs originals others

-- Inputs of transactions of one id are equal when their witnesses are.
abbrev txin_eq : TxIn → TxIn → Bool
txin_eq a b = outpoint_eq a.previous_output b.previous_output && a.witness.rank == b.witness.rank

abbrev pub inputs_eq : List TxIn → List TxIn → Bool
inputs_eq [] [] = true
inputs_eq [] (b ∷ bs) = false
inputs_eq (a ∷ as_) [] = false
inputs_eq (a ∷ as_) (b ∷ bs) = txin_eq a b && inputs_eq as_ bs

-- `none` when the merged transaction is the original one.
unfoldable pub merge_tx_witnesses : Transaction → Transaction → Option Transaction
merge_tx_witnesses original_tx other_tx =
    let merged_input = merge_inputs original_tx.input other_tx.input in
    if inputs_eq merged_input original_tx.input
    then none
    else if inputs_eq merged_input other_tx.input
    then some other_tx
    else some (record original_tx { input = merged_input })

abbrev pub spenders_at : BtreeMap (BtreeMap IdSet) → OutPoint → IdSet
spenders_at spends op = or_empty (and_then (BtreeMap.get op.txid spends) (BtreeMap.get op.vout))

unfoldable pub add_spends : ℕ → List TxIn → BtreeMap (BtreeMap IdSet) → BtreeMap (BtreeMap IdSet)
add_spends txid [] spends = spends
add_spends txid (txin ∷ inputs) spends =
    if txin.is_null
    then add_spends txid inputs spends
    else add_spends txid inputs (
        insert_at txin.previous_output (IdSet.insert txid (spenders_at spends txin.previous_output))
          spends)

abbrev partial_outputs : Option TxNodeInternal → Option (BtreeMap TxOut)
partial_outputs none = some []
partial_outputs (some (whole tx)) = none
partial_outputs (some (partial txouts)) = some txouts

module _ {A : Type 0} where
  -- An occupied full node.
  unfoldable pub update_whole : TxGraph A → Transaction → Transaction → TxGraph A × ChangeSet A
  update_whole self existing_tx tx =
      if inputs_eq existing_tx.input tx.input
      then (self, Changes.empty)
      else elim (merge_tx_witnesses existing_tx tx) [
        | none ↦ (self, Changes.empty)
        | some merged_tx ↦ (
          record self { txs = BtreeMap.insert tx.txid (whole merged_tx) self.txs },
          record Changes.empty { txs = merged_tx ∷ [] },
        )
      ]

  unfoldable pub insert_tx : TxGraph A → Transaction → TxGraph A × ChangeSet A
  insert_tx self tx = elim (and_then (BtreeMap.get tx.txid self.txs) whole_tx) [
    | some existing_tx ↦ update_whole self existing_tx tx
    | none ↦ (
      record self {
        txs = BtreeMap.insert tx.txid (whole tx) self.txs;
        spends = add_spends tx.txid tx.input self.spends;
      },
      record Changes.empty { txs = tx ∷ [] },
    )
  ]

  -- `new`: the transactions inserted one after the other.
  unfoldable pub insert_txs : TxGraph A → List Transaction → TxGraph A
  insert_txs self [] = self
  insert_txs self (tx ∷ txs) = insert_txs (insert_tx self tx).0 txs

  unfoldable pub insert_txout : TxGraph A → OutPoint → TxOut → TxGraph A × ChangeSet A
  insert_txout self outpoint txout = elim (partial_outputs (BtreeMap.get outpoint.txid self.txs)) [
    | none ↦ (self, Changes.empty)
    | some partial_tx ↦ (
      record self {
        txs =
            BtreeMap.insert outpoint.txid (partial (BtreeMap.insert outpoint.vout txout partial_tx))
              self.txs;
      },
      elim (BtreeMap.get outpoint.vout partial_tx) [
        | some old_txout ↦ Changes.empty
        | none ↦ record Changes.empty { txouts = insert_at outpoint txout [] }
      ],
    )
  ]
