-- ===== src/Chain/Canonical/Mark/Enough.antt =====
-- The fuel of `mark_canonical` is enough.
use bdk.Prelude.{
  ℕ, zero, suc, ◌+◌, ◌≤◌, ◌<◌, ◌≡◌, refl, subst, ap, ◌∙◌, true, false, some, List, [], ◌∷◌, length,
  All, ◌==◌, ==_iff, if◌then◌else◌, arith, Bool-cases, inl, inr, and_then,
}
use bdk.Prelude.BtreeMap
use bdk.Prelude.BtreeMap.{BtreeMap}
use bdk.Prelude.IdSet
use bdk.Prelude.IdSet.{IdSet}
use bdk.Chain.Tx.{Transaction}
use bdk.Chain.TxGraph.{TxGraph, TxNodeInternal, whole_tx}
use bdk.Chain.TxGraph.Insert.Index.{AreIds}
use bdk.Chain.Canonical.Reason.{CanonicalReason}
use bdk.Chain.Canonical.Descend.{prune_conflicts}
use bdk.Chain.Canonical.Descend.Enough.{zero_add, suc_add}
use bdk.Chain.Canonical.Mark.{
  Marking, Marks, has_key, populate_queue, visit, this_reason, ascend, mark_fuel, start_marking,
}
use bdk.Chain.Canonical.Mark.Kept.{IsKnown, populate_queue-IsKnown, marking_of}

module _ {V : Type 0} where
  -- How many of a list are not keys of the map.
  unmarked : List ℕ → BtreeMap V → ℕ
  unmarked [] m = 0
  unmarked (u ∷ us) m = let rest = unmarked us m in if has_key u m then rest else suc rest

  unmarked-le : (us : List ℕ) (m : BtreeMap V) → unmarked us m ≤ length us
  unfolding unmarked
  unmarked-le [] m = omega arith
  unmarked-le (u ∷ us) m = ground (arith, unmarked-le us m)

  unmarked-insert :
      (us : List ℕ) (k : ℕ) (v : V) (m : BtreeMap V)
      → unmarked us (BtreeMap.insert k v m) ≤ unmarked us m
  unfolding unmarked
  unmarked-insert [] k v m = omega arith
  unmarked-insert (u ∷ us) k v m =
      ground (arith, unmarked-insert us k v m, BtreeMap.get-insert u k v m)

  unmarked-lt :
      (us : List ℕ) (k : ℕ) (v : V) (m : BtreeMap V)
      → IdSet.contains us k ≡ true
      → has_key k m ≡ false
      → unmarked us (BtreeMap.insert k v m) < unmarked us m
  unfolding unmarked IdSet.contains
  unmarked-lt [] k v m h f = ground arith
  unmarked-lt (u ∷ us) k v m h f = elim (Bool-cases (k == u)) [
    | inl e ↦
        let f' : has_key u m ≡ false = subst (λ j. has_key j m ≡ false) ((==_iff k u).0 e) f in
        let e' : (u == k) ≡ true = ground (arith, e) in
        ground (arith, e', f', unmarked-insert us k v m, BtreeMap.get-insert u k v m)
    | inr e ↦ ground (
      arith,
      unmarked-lt us k v m (rw e at h) f,
      unmarked-insert us k v m,
      BtreeMap.get-insert u k v m,
      f,
    )
  ]

keys : BtreeMap TxNodeInternal → List ℕ
keys [] = []
keys ((k, v) ∷ m) = k ∷ keys m

length-keys : (m : BtreeMap TxNodeInternal) → length (keys m) ≡ length m
unfolding keys
length-keys [] = refl
length-keys ((k, v) ∷ m) = ap suc (length-keys m)

contains-keys :
    (m : BtreeMap TxNodeInternal) (i : ℕ) (t : Transaction)
    → and_then (BtreeMap.get i m) whole_tx ≡ some t
    → IdSet.contains (keys m) i ≡ true
unfolding keys IdSet.contains BtreeMap.get
contains-keys [] i t h = ground arith
contains-keys ((k, v) ∷ m) i t h = ground (arith, contains-keys m i t, h)

module _ {A : Type 0} (graph : TxGraph A) where
  visit-none :
      (reason : CanonicalReason A) (s : ℕ) (tx : Transaction) (m : Marking A)
      → (visit graph reason s tx m).1 ≡ false
      → (visit graph reason s tx m).0.canonical ≡ m.canonical
  unfolding visit
  visit-none reason s tx m h = ground (arith, h)

  visit-some :
      (reason : CanonicalReason A) (s : ℕ) (tx : Transaction) (m : Marking A)
      → IsKnown graph tx
      → (visit graph reason s tx m).1 ≡ true
      → unmarked (keys graph.txs) (visit graph reason s tx m).0.canonical
        < unmarked (keys graph.txs) m.canonical
  unfolding visit
  visit-some reason s tx m k h = elim (Bool-cases (has_key tx.txid m.canonical)) [
    | inl e ↦ ground (arith, h, e)
    | inr e ↦
        elim (Bool-cases
          (IdSet.contains (prune_conflicts graph tx m.pruned).not_canonical tx.txid)) [
            | inl d ↦ ground (arith, h, e, d)
            | inr d ↦
                rw (visit, e, d)
                  (unmarked-lt (keys graph.txs) tx.txid (tx, this_reason reason s m) m.canonical
                    (contains-keys graph.txs tx.txid tx k) e)
          ]
  ]

  same_le :
      (reason : CanonicalReason A) (s : ℕ) (tx : Transaction) (m : Marking A) (fuel : ℕ)
      → (visit graph reason s tx m).1 ≡ false
      → unmarked (keys graph.txs) m.canonical ≤ fuel
      → unmarked (keys graph.txs) (visit graph reason s tx m).0.canonical ≤ fuel
  same_le reason s tx m fuel e l = rw (visit-none reason s tx m e) l

  ascend_more :
      AreIds graph
      → (fuel : ℕ) (reason : CanonicalReason A) (s : ℕ) (visited : IdSet) (queue : List Transaction)
        (m : Marking A)
      → All (IsKnown graph) queue
      → unmarked (keys graph.txs) m.canonical ≤ fuel
      → ascend graph (suc fuel) reason s visited queue m
        ≡ ascend graph fuel reason s visited queue m
  unfolding ascend
  ascend_more ids zero reason s visited [] m a l = refl
  ascend_more ids (suc fuel) reason s visited [] m a l = refl
  ascend_more ids zero reason s visited (tx ∷ queue) m a l =
      elim (Bool-cases (visit graph reason s tx m).1) [
        | inl e ↦ ground (arith, l, visit-some reason s tx m a.0 e)
        | inr e ↦
            rw (ascend, e)
              (ascend_more ids zero reason s visited queue (visit graph reason s tx m).0 a.1
                (same_le reason s tx m zero e l))
      ]
  ascend_more ids (suc fuel) reason s visited (tx ∷ queue) m a l =
      elim (Bool-cases (visit graph reason s tx m).1) [
        | inl e ↦
            rw (ascend, e)
              (ascend_more ids fuel reason s (populate_queue graph tx.input visited queue).0
                (populate_queue graph tx.input visited queue).1 (visit graph reason s tx m).0
                (populate_queue-IsKnown graph ids tx.input visited queue a.1)
                (omega (arith, l, visit-some reason s tx m a.0 e)))
        | inr e ↦
            rw (ascend, e)
              (ascend_more ids (suc fuel) reason s visited queue (visit graph reason s tx m).0 a.1
                (same_le reason s tx m (suc fuel) e l))
      ]

  ascend_any :
      AreIds graph
      → (k fuel : ℕ) (reason : CanonicalReason A) (s : ℕ) (visited : IdSet)
        (queue : List Transaction) (m : Marking A)
      → All (IsKnown graph) queue
      → unmarked (keys graph.txs) m.canonical ≤ fuel
      → ascend graph (k + fuel) reason s visited queue m
        ≡ ascend graph fuel reason s visited queue m
  ascend_any ids zero fuel reason s visited queue m a l =
      ap (λ f. ascend graph f reason s visited queue m) (zero_add fuel)
  ascend_any ids (suc k) fuel reason s visited queue m a l =
      ap (λ f. ascend graph f reason s visited queue m) (suc_add k fuel)
      ∙ ascend_more ids (k + fuel) reason s visited queue m a (omega (arith, l))
      ∙ ascend_any ids k fuel reason s visited queue m a l

  -- For a transaction of a graph that stores full transactions under their ids, more fuel than
  -- that of `mark_canonical` changes nothing.
  pub ascend_enough :
      (self : Marks A) (k txid : ℕ) (tx : Transaction) (reason : CanonicalReason A)
      → AreIds graph
      → IsKnown graph tx
      → ascend graph (k + mark_fuel graph) reason txid [] (tx ∷ []) (start_marking self)
        ≡ marking_of graph self txid tx reason
  ascend_enough self k txid tx reason ids known =
      ascend_any ids k (mark_fuel graph) reason txid [] (tx ∷ []) (start_marking self) (known, tt)
        (omega (arith, unmarked-le (keys graph.txs) self.canonical, length-keys graph.txs))
