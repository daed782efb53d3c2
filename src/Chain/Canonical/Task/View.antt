-- ===== src/Chain/Canonical/Task/View.antt =====
-- What a finished task hands over: transactions that are canonical, no two of which spend the same
-- output.
use bdk.Prelude.{
  ℕ, ◌≡◌, refl, ap, ◌∙◌, true, false, some, List, [], ◌∷◌, ◌==◌, ==_iff, arith, Bool-cases,
  Option-cases, inl, inr,
}
use bdk.Prelude.BtreeMap
use bdk.Prelude.IdSet
use bdk.Chain.Tx.{OutPoint, Transaction}
use bdk.Chain.TxGraph.{TxGraph}
use bdk.Chain.TxGraph.Insert.Index.{tx_at, has_input, IsIndexed}
use bdk.Chain.TxGraph.Conflicts.{contains-direct_conflicts, shares_input-has_input}
use bdk.Chain.Canonical.Reason.{CanonicalReason}
use bdk.Chain.Canonical.Descend.{conflict_ids}
use bdk.Chain.Canonical.Mark.{Marks, CanonicalMap}
use bdk.Chain.Canonical.Mark.Kept.{IsMarks}
use bdk.Chain.Canonical.Mark.Marked.{IsMarked}
use bdk.Chain.Canonical.View.{CanonicalTxs}
use bdk.Chain.Canonical.Task.{CanonicalTask, collect_view, finish}

-- No two transactions of the map spend the same output.
abbrev pub SpendsOnce : {A : Type 0} → CanonicalMap A → Type 0
SpendsOnce {A} txs =
    (op : OutPoint) (i j : ℕ) (e f : Transaction × CanonicalReason A)
    → BtreeMap.get i txs ≡ some e
    → BtreeMap.get j txs ≡ some f
    → has_input op e.0.input ≡ true
    → has_input op f.0.input ≡ true
    → i ≡ j

module _ {A : Type 0} (graph : TxGraph A) where
  in_conflict :
      (op : OutPoint) (i j : ℕ) (e f : Transaction × CanonicalReason A)
      → IsIndexed graph
      → e.0.txid ≡ i
      → tx_at graph j ≡ some f.0
      → (j == i) ≡ false
      → has_input op e.0.input ≡ true
      → has_input op f.0.input ≡ true
      → IdSet.contains (conflict_ids graph e.0) j ≡ true
  in_conflict op i j e f ix at found other x y =
      contains-direct_conflicts graph e.0 j ix
      ∙ rw (at, other, shares_input-has_input graph op f.0 e.0.input j found x y) refl

  pub IsMarked-SpendsOnce :
      (canonical : CanonicalMap A) (rejected : IdSet.IdSet)
      → IsIndexed graph
      → IsMarked graph canonical rejected
      → SpendsOnce canonical
  IsMarked-SpendsOnce canonical rejected ix m op i j e f h k x y = elim (Bool-cases (i == j)) [
    | inl same ↦ (==_iff i j).0 same
    | inr other ↦ ground (
      arith,
      m.apart i j e f h k,
      in_conflict op i j e f ix (m.known i e h).1 (m.known j f k).0 (ground (arith, other)) x y,
      in_conflict op j i f e ix (m.known j f k).1 (m.known i e h).0 other y x,
    )
  ]

-- An entry of the view is one of the canonical map.
abbrev IsWithin : {A : Type 0} → CanonicalMap A → CanonicalMap A → Type 0
IsWithin {A} small big =
    (i : ℕ) (e : Transaction × CanonicalReason A)
    → BtreeMap.get i small ≡ some e
    → BtreeMap.get i big ≡ some e

module _ {A : Type 0} where
  collect_view-IsWithin :
      (self : Marks A) (order : List ℕ) (view : CanonicalTxs A)
      → IsWithin view.txs self.canonical
      → IsWithin (collect_view self order view).txs self.canonical
  unfolding collect_view
  collect_view-IsWithin self [] view w = w
  collect_view-IsWithin self (txid ∷ rest) view w =
      elim (Option-cases (BtreeMap.get txid self.canonical)) [
        | inl n ↦ rw (collect_view, n) (collect_view-IsWithin self rest view w)
        | inr (entry, n) ↦
            rw (collect_view, n)
              (collect_view-IsWithin self rest _ (λ i e h.
                elim (BtreeMap.get-insert_cases i txid entry e view.txs h) [
                  | inl (p, q) ↦ rw p (n ∙ ap some q)
                  | inr o ↦ w i e o
                ]))
      ]

  nothing_IsWithin : (big : CanonicalMap A) → IsWithin [] big
  unfolding BtreeMap.get
  nothing_IsWithin big i e h = cc

  -- No two transactions that a finished task hands over spend the same output.
  pub finish-SpendsOnce :
      (graph : TxGraph A) (t : CanonicalTask A)
      → IsIndexed graph
      → IsMarks graph t.marks
      → SpendsOnce (finish t).txs
  unfolding finish
  finish-SpendsOnce graph t ix m op i j e f h k =
      let w =
        collect_view-IsWithin t.marks t.marks.canonical_order _
          (nothing_IsWithin t.marks.canonical) in
      IsMarked-SpendsOnce graph t.marks.canonical t.marks.not_canonical ix m op i j e f (w i e h)
        (w j f k)
