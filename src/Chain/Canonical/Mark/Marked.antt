-- ===== src/Chain/Canonical/Mark/Marked.antt =====
-- What `mark_canonical` keeps of the canonical transactions and the rejected ones.
use bdk.Prelude.{
  ℕ, ◌≡◌, refl, sym, ◌∙◌, true, false, ◌&&◌, some, [], ◌⊎◌, arith, Bool-cases, inl, inr,
}
use bdk.Prelude.BtreeMap
use bdk.Prelude.BtreeMap.{BtreeMap, IsSorted}
use bdk.Prelude.IdSet
use bdk.Prelude.IdSet.{IdSet}
use bdk.Chain.Tx.{Transaction}
use bdk.Chain.TxGraph.{TxGraph}
use bdk.Chain.TxGraph.Conflicts.{conflicts_self}
use bdk.Chain.TxGraph.Insert.Index.{tx_at}
use bdk.Chain.Canonical.Reason.{CanonicalReason}
use bdk.Chain.Canonical.Descend.{Pruned, prune_conflicts, conflict_ids}
use bdk.Chain.Canonical.Descend.Pruning.{IsRejected, IsRejected-IsKept, prune_each-IsKept}
use bdk.Chain.Canonical.Descend.Enough.{IsClosedBut, prune_each-IsClosed}
use bdk.Chain.Canonical.Mark.{CanonicalMap}

module _ {A : Type 0} (graph : TxGraph A) where
  pub record IsMarked (canonical : CanonicalMap A) (rejected : IdSet) : Type 0 where
    pub sorted : IsSorted canonical
    -- A canonical transaction is the one of the graph.
    pub known :
        (i : ℕ) (e : Transaction × CanonicalReason A)
        → BtreeMap.get i canonical ≡ some e
        → (tx_at graph i ≡ some e.0) × (e.0.txid ≡ i)
    -- Its direct conflicts are rejected.
    pub covered :
        (i j : ℕ) (e : Transaction × CanonicalReason A)
        → BtreeMap.get i canonical ≡ some e
        → IdSet.contains (conflict_ids graph e.0) j ≡ true
        → IdSet.contains rejected j ≡ true
    -- No two canonical transactions are each a direct conflict of the other.
    pub apart :
        (i j : ℕ) (e f : Transaction × CanonicalReason A)
        → BtreeMap.get i canonical ≡ some e
        → BtreeMap.get j canonical ≡ some f
        → (IdSet.contains (conflict_ids graph e.0) j && IdSet.contains (conflict_ids graph f.0) i)
          ≡ false
    -- Descendants of rejected transactions are rejected.
    pub closed : IsClosedBut graph [] rejected

  -- It depends on what the map and the set are read as.
  pub IsMarked-same :
      (canonical other : CanonicalMap A) (rejected also : IdSet)
      → ((i : ℕ) → BtreeMap.get i other ≡ BtreeMap.get i canonical)
      → ((j : ℕ) → IdSet.contains also j ≡ IdSet.contains rejected j)
      → IsSorted other
      → IsMarked canonical rejected
      → IsMarked other also
  IsMarked-same canonical other rejected also g c s m = record {
    sorted = s;
    known = λ i e h. m.known i e (sym (g i) ∙ h);
    covered = λ i j e h k. c j ∙ m.covered i j e (sym (g i) ∙ h) k;
    apart = λ i j e f h k. m.apart i j e f (sym (g i) ∙ h) (sym (g j) ∙ k);
    closed = λ t j x y. rw (c j) (m.closed t j (sym (c t) ∙ x) y);
  }

  -- Pruning the conflicts of a transaction.
  pub IsMarked-prune :
      (canonical : CanonicalMap A) (p : Pruned) (tx : Transaction)
      → IsMarked canonical p.not_canonical
      → IsMarked canonical (prune_conflicts graph tx p).not_canonical
  unfolding prune_conflicts
  IsMarked-prune canonical p tx m = record {
    sorted = m.sorted;
    known = m.known;
    covered = λ i j e h k.
        prune_each-IsKept graph (IsRejected j) (IsRejected-IsKept j) (conflict_ids graph tx) p
          (m.covered i j e h k);
    apart = m.apart;
    closed = prune_each-IsClosed graph (conflict_ids graph tx) p m.closed;
  }

  spared :
      (canonical : CanonicalMap A) (rejected : IdSet) (txid : ℕ)
      → IsMarked canonical rejected
      → IdSet.contains rejected txid ≡ false
      → (i : ℕ) (e : Transaction × CanonicalReason A) → BtreeMap.get i canonical ≡ some e
      → IdSet.contains (conflict_ids graph e.0) txid ≡ false
  spared canonical rejected txid m free i e o =
      elim (Bool-cases (IdSet.contains (conflict_ids graph e.0) txid)) [
        | inl y ↦ ground (arith, m.covered i txid e o y, free)
        | inr n ↦ n
      ]

  -- A transaction that is not rejected and whose conflicts are is added.
  pub IsMarked-insert :
      (canonical : CanonicalMap A) (rejected : IdSet) (tx : Transaction)
      (reason : CanonicalReason A)
      → IsMarked canonical rejected
      → tx_at graph tx.txid ≡ some tx
      → IdSet.contains rejected tx.txid ≡ false
      → ((j : ℕ)
          → IdSet.contains (conflict_ids graph tx) j ≡ true
          → IdSet.contains rejected j ≡ true)
      → IsMarked (BtreeMap.insert tx.txid (tx, reason) canonical) rejected
  IsMarked-insert canonical rejected tx reason m at free conflicts = record {
    sorted = BtreeMap.insert-IsSorted tx.txid (tx, reason) canonical m.sorted;
    known = λ i e h. elim (cases i e h) [
      | inl (p, q) ↦ rw (p, sym q) (at, refl)
      | inr o ↦ m.known i e o
    ];
    covered = λ i j e h k. elim (cases i e h) [
      | inl (p, q) ↦ conflicts j (rw (sym q) at k)
      | inr o ↦ m.covered i j e o k
    ];
    apart = λ i j e f h k. elim (cases i e h) [
      | inl (p, q) ↦ elim (cases j f k) [
        | inl (p', q') ↦ rw (p, p', sym q, sym q', conflicts_self graph tx) refl
        | inr o ↦ rw p (ground (arith, spared canonical rejected tx.txid m free j f o))
      ]
      | inr o ↦ elim (cases j f k) [
        | inl (p', q') ↦ rw p' (ground (arith, spared canonical rejected tx.txid m free i e o))
        | inr o' ↦ m.apart i j e f o o'
      ]
    ];
    closed = m.closed;
  }
    where
      cases :
          (i : ℕ) (e : Transaction × CanonicalReason A)
          → BtreeMap.get i (BtreeMap.insert tx.txid (tx, reason) canonical) ≡ some e
          → ((i ≡ tx.txid) × ((tx, reason) ≡ e)) ⊎ (BtreeMap.get i canonical ≡ some e)
      cases i e h = BtreeMap.get-insert_cases i tx.txid (tx, reason) e canonical h
