-- ===== src/Chain/TxGraph/Seen/Laws.antt =====
-- What the times of a graph and its index by time are after a transaction is seen or evicted.
use bdk.Prelude.{
  ℕ, ◌≡◌, Bool, false, Option, none, some, ltb, ◌==◌, if◌then◌else◌, arith, Option-cases, inl, inr,
}
use bdk.Prelude.BtreeMap
use bdk.Prelude.BtreeSet
use bdk.Prelude.BtreeSet.{cmp_pair, pair_eq, contains_pair-insert, contains_pair-remove}
use bdk.Chain.TxGraph.{TxGraph}
use bdk.Chain.TxGraph.Seen.{update_first_seen, update_last_seen, insert_evicted_at}

abbrev pub earliest : Option ℕ → ℕ → ℕ
earliest none t = t
earliest (some old) t = if ltb t old then t else old

abbrev pub latest : Option ℕ → ℕ → ℕ
latest none t = t
latest (some old) t = if ltb old t then t else old

abbrev pub is_at : ℕ → Option ℕ → Bool
is_at t none = false
is_at t (some u) = t == u

-- The index by time has exactly the entries of the map.
abbrev pub IsSeenIndexed : {A : Type 0} → TxGraph A → Type 0
IsSeenIndexed g =
    (t i : ℕ)
    → BtreeSet.contains cmp_pair g.txs_by_last_seen (t, i) ≡ is_at t (BtreeMap.get i g.last_seen)

module _ {A : Type 0} where
  pub update_first_seen-get :
      (g : TxGraph A) (k v i : ℕ)
      → BtreeMap.get i (update_first_seen g k v).0.first_seen ≡ (
          if i == k
          then some (earliest (BtreeMap.get k g.first_seen) v)
          else BtreeMap.get i g.first_seen)
  unfolding update_first_seen
  update_first_seen-get g k v i = ground (arith, BtreeMap.get-insert i k v g.first_seen)

  pub update_last_seen-get :
      (g : TxGraph A) (k v i : ℕ)
      → BtreeMap.get i (update_last_seen g k v).0.last_seen ≡ (
          if i == k
          then some (latest (BtreeMap.get k g.last_seen) v)
          else BtreeMap.get i g.last_seen)
  unfolding update_last_seen
  update_last_seen-get g k v i = ground (arith, BtreeMap.get-insert i k v g.last_seen)

  pub insert_evicted_at-get :
      (g : TxGraph A) (k v i : ℕ)
      → BtreeMap.get i (insert_evicted_at g k v).0.last_evicted ≡ (
          if i == k
          then some (latest (BtreeMap.get k g.last_evicted) v)
          else BtreeMap.get i g.last_evicted)
  unfolding insert_evicted_at
  insert_evicted_at-get g k v i = ground (arith, BtreeMap.get-insert i k v g.last_evicted)

  pub update_last_seen-IsSeenIndexed :
      (g : TxGraph A) (k v : ℕ) → IsSeenIndexed g → IsSeenIndexed (update_last_seen g k v).0
  unfolding update_last_seen
  update_last_seen-IsSeenIndexed g k v ix t i = elim (Option-cases (BtreeMap.get k g.last_seen)) [
    | inl e ↦ ground (
      arith,
      e,
      ix t i,
      BtreeMap.get-insert i k v g.last_seen,
      contains_pair-insert (v, k) (t, i) g.txs_by_last_seen,
    )
    | inr (u, e) ↦ ground (
      arith,
      e,
      ix t i,
      BtreeMap.get-insert i k v g.last_seen,
      contains_pair-insert (v, k) (t, i) (BtreeSet.remove cmp_pair (u, k) g.txs_by_last_seen),
      contains_pair-remove (u, k) (t, i) g.txs_by_last_seen,
    )
  ]
