-- ===== src/Chain/TxGraph/Seen.antt =====
-- The times at which a transaction was seen and evicted, of `crates/chain/src/tx_graph.rs`.
pub mod Laws
use bdk.Prelude.{ℕ, Bool, true, false, Option, none, some, List, [], ◌∷◌, ltb, ◌==◌, if◌then◌else◌}
use bdk.Prelude.BtreeMap
use bdk.Prelude.BtreeSet
use bdk.Prelude.BtreeSet.{cmp_pair}
use bdk.Chain.TxGraph.{TxGraph}
use bdk.Chain.TxGraph.ChangeSet as Changes
use bdk.Chain.TxGraph.ChangeSet.{ChangeSet}

-- The index entry of the time before is removed.
abbrev pub remove_old : Option ℕ → ℕ → List (ℕ × ℕ) → List (ℕ × ℕ)
remove_old none txid by_time = by_time
remove_old (some old) txid by_time = BtreeSet.remove cmp_pair (old, txid) by_time

module _ {A : Type 0} where
  abbrev set_first : TxGraph A → ℕ → ℕ → TxGraph A × ChangeSet A
  set_first self txid seen_at = (
    record self { first_seen = BtreeMap.insert txid seen_at self.first_seen },
    record Changes.empty { first_seen = (txid, seen_at) ∷ [] },
  )

  unfoldable pub update_first_seen : TxGraph A → ℕ → ℕ → TxGraph A × ChangeSet A
  update_first_seen self txid seen_at = elim (BtreeMap.get txid self.first_seen) [
    | some first_seen ↦
        if ltb seen_at first_seen then set_first self txid seen_at else (self, Changes.empty)
    | none ↦ set_first self txid seen_at
  ]

  abbrev set_last : TxGraph A → Option ℕ → ℕ → ℕ → TxGraph A × ChangeSet A
  set_last self old_last_seen txid seen_at = (
    record self {
      last_seen = BtreeMap.insert txid seen_at self.last_seen;
      txs_by_last_seen =
          BtreeSet.insert cmp_pair (seen_at, txid)
            (remove_old old_last_seen txid self.txs_by_last_seen);
    },
    record Changes.empty { last_seen = (txid, seen_at) ∷ [] },
  )

  unfoldable pub update_last_seen : TxGraph A → ℕ → ℕ → TxGraph A × ChangeSet A
  update_last_seen self txid seen_at = elim (BtreeMap.get txid self.last_seen) [
    | some last_seen ↦
        if ltb last_seen seen_at
        then set_last self (some last_seen) txid seen_at
        else (self, Changes.empty)
    | none ↦ set_last self none txid seen_at
  ]

  abbrev set_evicted : TxGraph A → ℕ → ℕ → TxGraph A × ChangeSet A
  set_evicted self txid evicted_at = (
    record self { last_evicted = BtreeMap.insert txid evicted_at self.last_evicted },
    record Changes.empty { last_evicted = (txid, evicted_at) ∷ [] },
  )

  unfoldable pub insert_evicted_at : TxGraph A → ℕ → ℕ → TxGraph A × ChangeSet A
  insert_evicted_at self txid evicted_at = elim (BtreeMap.get txid self.last_evicted) [
    | some last_evicted ↦
        if ltb last_evicted evicted_at
        then set_evicted self txid evicted_at
        else (self, Changes.empty)
    | none ↦ set_evicted self txid evicted_at
  ]
