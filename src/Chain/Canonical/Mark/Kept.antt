-- ===== src/Chain/Canonical/Mark/Kept.antt =====
-- `mark_canonical` keeps canonical transactions apart, and undoes a transaction that double spends
-- itself.
use bdk.Prelude.{
  ℕ, zero, suc, ◌≡◌, refl, sym, ap, ◌∙◌, true, false, none, some, List, [], ◌∷◌, ◌++◌, All, ◌==◌,
  ==_iff, if◌then◌else◌, arith, Bool-cases, Option-cases, inl, inr,
}
use bdk.Prelude.BtreeMap
use bdk.Prelude.BtreeMap.{BtreeMap, IsSorted}
use bdk.Prelude.IdSet
use bdk.Prelude.IdSet.{IdSet, contains-append}
use bdk.Chain.Tx.{Transaction, TxIn}
use bdk.Chain.TxGraph.{TxGraph, get_tx}
use bdk.Chain.TxGraph.Insert.Index.{tx_at, AreIds, get_tx-eq-tx_at}
use bdk.Chain.Canonical.Reason.{CanonicalReason}
use bdk.Chain.Canonical.Descend.{Pruned, prune_conflicts, conflict_ids}
use bdk.Chain.Canonical.Descend.Pruning.{
  IsUndoable, IsUndoable-IsKept, prune_each-IsKept, prune_each-IsRejected,
}
use bdk.Chain.Canonical.Mark.{
  CanonicalMap, Marking, Marks, has_key, populate_queue, this_reason, visit, ascend, mark_fuel,
  start_marking, settle, mark_canonical, remove_all, remove_ids,
}
use bdk.Chain.Canonical.Mark.Marked.{IsMarked, IsMarked-same, IsMarked-prune, IsMarked-insert}
use bdk.Chain.Canonical.Mark.Undo.{remove_all-IsSorted, get-remove_all, contains-remove_ids}

module _ {A : Type 0} (graph : TxGraph A) where
  -- The graph has the transaction.
  abbrev pub IsKnown : Transaction → Type 0
  IsKnown tx = tx_at graph tx.txid ≡ some tx

  All-snoc :
      (q : List Transaction) (tx : Transaction)
      → All IsKnown q
      → IsKnown tx
      → All IsKnown (q ++ (tx ∷ []))
  All-snoc [] tx a k = (k, tt)
  All-snoc (x ∷ q) tx a k = (a.0, All-snoc q tx a.1 k)

  pub populate_queue-IsKnown :
      AreIds graph
      → (inputs : List TxIn) (visited : IdSet) (queue : List Transaction) → All IsKnown queue
      → All IsKnown (populate_queue graph inputs visited queue).1
  unfolding populate_queue
  populate_queue-IsKnown ids [] visited queue a = a
  populate_queue-IsKnown ids (txin ∷ inputs) visited queue a =
      elim (Bool-cases (IdSet.contains visited txin.previous_output.txid)) [
        | inl e ↦ rw (populate_queue, e) (populate_queue-IsKnown ids inputs visited queue a)
        | inr e ↦ elim (Option-cases (get_tx graph txin.previous_output.txid)) [
          | inl n ↦
              rw (populate_queue, e, n)
                (populate_queue-IsKnown ids inputs (IdSet.insert txin.previous_output.txid visited)
                  queue a)
          | inr (tx, n) ↦
              rw (populate_queue, e, n)
                (populate_queue-IsKnown ids inputs (IdSet.insert txin.previous_output.txid visited)
                  (queue ++ (tx ∷ [])) (All-snoc queue tx a (known txin.previous_output.txid tx n)))
        ]
      ]
    where
      known : (i : ℕ) (tx : Transaction) → get_tx graph i ≡ some tx → IsKnown tx
      known i tx n =
          let found : tx_at graph i ≡ some tx = sym (get_tx-eq-tx_at graph i) ∙ n in
          ap (tx_at graph) (ids i tx found) ∙ found

  -- What holds while the ancestors are visited, of the marks at the start.
  pub record IsUnderway (self : Marks A) (m : Marking A) : Type 0 where
    pub marked : IsMarked graph m.canonical m.pruned.not_canonical
    pub undoable : IsUndoable self.not_canonical m.pruned
    pub same :
        (i : ℕ)
        → BtreeMap.get i self.canonical
          ≡ (if IdSet.contains m.staged i then none else BtreeMap.get i m.canonical)

  abbrev pub IsMarks : Marks A → Type 0
  IsMarks self = IsMarked graph self.canonical self.not_canonical

  prune_conflicts-IsUndoable :
      (before : IdSet) (tx : Transaction) (p : Pruned)
      → IsUndoable before p
      → IsUndoable before (prune_conflicts graph tx p)
  unfolding prune_conflicts
  prune_conflicts-IsUndoable before tx p h =
      prune_each-IsKept graph (IsUndoable before) (IsUndoable-IsKept before) (conflict_ids graph tx)
        p h

  prune_conflicts-IsRejected :
      (tx : Transaction) (p : Pruned) (j : ℕ)
      → IdSet.contains (conflict_ids graph tx) j ≡ true
      → IdSet.contains (prune_conflicts graph tx p).not_canonical j ≡ true
  unfolding prune_conflicts
  prune_conflicts-IsRejected tx p j h = prune_each-IsRejected graph (conflict_ids graph tx) p j h

  stage-same :
      (start canonical : CanonicalMap A) (staged : List ℕ) (txid i : ℕ)
      (v : Transaction × CanonicalReason A)
      → has_key txid canonical ≡ false
      → ((j : ℕ)
          → BtreeMap.get j start
            ≡ (if IdSet.contains staged j then none else BtreeMap.get j canonical))
      → BtreeMap.get i start ≡ (
          if IdSet.contains (staged ++ (txid ∷ [])) i
          then none
          else BtreeMap.get i (BtreeMap.insert txid v canonical))
  unfolding IdSet.contains
  stage-same start canonical staged txid i v e h = elim (Bool-cases (i == txid)) [
    | inl at ↦
        let absent : BtreeMap.get txid start ≡ none = ground (arith, h txid, e) in
        let gone : BtreeMap.get i start ≡ none = rw ((==_iff i txid).0 at) absent in
        ground (arith, gone, at, contains-append staged (txid ∷ []) i)
    | inr other ↦ ground (
      arith,
      h i,
      other,
      contains-append staged (txid ∷ []) i,
      BtreeMap.get-insert i txid v canonical,
    )
  ]

  visit-IsUnderway :
      (self : Marks A) (reason : CanonicalReason A) (starting_txid : ℕ) (tx : Transaction)
      (m : Marking A)
      → IsKnown tx
      → IsUnderway self m
      → IsUnderway self (visit graph reason starting_txid tx m).0
  unfolding visit
  visit-IsUnderway self reason starting_txid tx m k u =
      elim (Bool-cases (has_key tx.txid m.canonical)) [
        | inl e ↦ rw (visit, e) (record { marked = u.marked; undoable = u.undoable; same = u.same })
        | inr e ↦
            let undoable = prune_conflicts-IsUndoable self.not_canonical tx m.pruned u.undoable in
            let marked = IsMarked-prune graph m.canonical m.pruned tx u.marked in
            elim (Bool-cases
              (IdSet.contains (prune_conflicts graph tx m.pruned).not_canonical tx.txid)) [
                | inl d ↦
                    rw (visit, e, d)
                      (record { marked = marked; undoable = undoable; same = u.same })
                | inr d ↦
                    rw (visit, e, d)
                      (record {
                        marked =
                            IsMarked-insert graph m.canonical
                              (prune_conflicts graph tx m.pruned).not_canonical tx
                              (this_reason reason starting_txid m) marked k d
                              (prune_conflicts-IsRejected tx m.pruned);
                        undoable = undoable;
                        same = λ i.
                            stage-same self.canonical m.canonical m.staged tx.txid i
                              (tx, this_reason reason starting_txid m) e u.same;
                      })
              ]
      ]

  ascend-IsUnderway :
      AreIds graph
      → (self : Marks A) (fuel : ℕ) (reason : CanonicalReason A) (starting_txid : ℕ)
        (visited : IdSet) (queue : List Transaction) (m : Marking A)
      → All IsKnown queue
      → IsUnderway self m
      → IsUnderway self (ascend graph fuel reason starting_txid visited queue m)
  unfolding ascend
  ascend-IsUnderway ids self zero reason s visited [] m a u = u
  ascend-IsUnderway ids self (suc fuel) reason s visited [] m a u = u
  ascend-IsUnderway ids self zero reason s visited (tx ∷ queue) m a u =
      let next = visit-IsUnderway self reason s tx m a.0 u in
      elim (Bool-cases (visit graph reason s tx m).1) [
        | inl e ↦ rw (ascend, e) next
        | inr e ↦
            rw (ascend, e)
              (ascend-IsUnderway ids self zero reason s visited queue (visit graph reason s tx m).0
                a.1 next)
      ]
  ascend-IsUnderway ids self (suc fuel) reason s visited (tx ∷ queue) m a u =
      let next = visit-IsUnderway self reason s tx m a.0 u in
      elim (Bool-cases (visit graph reason s tx m).1) [
        | inl e ↦
            rw (ascend, e)
              (ascend-IsUnderway ids self fuel reason s
                (populate_queue graph tx.input visited queue).0
                (populate_queue graph tx.input visited queue).1 (visit graph reason s tx m).0
                (populate_queue-IsKnown ids tx.input visited queue a.1) next)
        | inr e ↦
            rw (ascend, e)
              (ascend-IsUnderway ids self (suc fuel) reason s visited queue
                (visit graph reason s tx m).0 a.1 next)
      ]

  start-IsUnderway : (self : Marks A) → IsMarks self → IsUnderway self (start_marking self)
  unfolding IdSet.contains
  start-IsUnderway self h = record { marked = h; undoable = λ j. (refl, refl); same = λ i. refl }

  -- What the marks are read as when a run is undone: what they were at the start.
  undo_get :
      (self : Marks A) (m : Marking A)
      → IsUnderway self m
      → (i : ℕ) → BtreeMap.get i (remove_all m.staged m.canonical) ≡ BtreeMap.get i self.canonical
  undo_get self m u i = get-remove_all i m.staged m.canonical u.marked.sorted ∙ sym (u.same i)

  undo_contains :
      (self : Marks A) (m : Marking A)
      → IsUnderway self m
      → (j : ℕ)
      → IdSet.contains (remove_ids m.pruned.undo m.pruned.not_canonical) j
        ≡ IdSet.contains self.not_canonical j
  undo_contains self m u j =
      ground (arith, contains-remove_ids j m.pruned.undo m.pruned.not_canonical, u.undoable j)

  settle-IsMarks :
      (self : Marks A) (m : Marking A) → IsMarks self → IsUnderway self m → IsMarks (settle self m)
  unfolding settle
  settle-IsMarks self m h u = elim (Bool-cases m.detected) [
    | inl e ↦
        rw (settle, e)
          (IsMarked-same graph self.canonical (remove_all m.staged m.canonical) self.not_canonical
            (remove_ids m.pruned.undo m.pruned.not_canonical) (undo_get self m u)
            (undo_contains self m u) (remove_all-IsSorted m.staged m.canonical u.marked.sorted) h)
    | inr e ↦ rw (settle, e) u.marked
  ]

  -- The run of the ancestors of one transaction.
  abbrev pub marking_of : Marks A → ℕ → Transaction → CanonicalReason A → Marking A
  marking_of self txid tx reason =
      ascend graph (mark_fuel graph) reason txid [] (tx ∷ []) (start_marking self)

  marking_of-IsUnderway :
      (self : Marks A) (txid : ℕ) (tx : Transaction) (reason : CanonicalReason A)
      → AreIds graph
      → IsKnown tx
      → IsMarks self
      → IsUnderway self (marking_of self txid tx reason)
  marking_of-IsUnderway self txid tx reason ids k h =
      ascend-IsUnderway ids self (mark_fuel graph) reason txid [] (tx ∷ []) (start_marking self)
        (k, tt) (start-IsUnderway self h)

  -- Marking a transaction of the graph keeps canonical transactions apart, their conflicts
  -- rejected, and the rejected transactions closed under descendants.
  pub mark_canonical-IsMarks :
      (self : Marks A) (txid : ℕ) (tx : Transaction) (reason : CanonicalReason A)
      → AreIds graph
      → IsKnown tx
      → IsMarks self
      → IsMarks (mark_canonical graph self txid tx reason)
  unfolding mark_canonical
  mark_canonical-IsMarks self txid tx reason ids k h =
      settle-IsMarks self (marking_of self txid tx reason) h
        (marking_of-IsUnderway self txid tx reason ids k h)

  -- Where the transaction or an ancestor double spends the marks or itself, marking it changes
  -- neither what is canonical, nor what is rejected, nor the order.
  pub mark_canonical-undo :
      (self : Marks A) (txid : ℕ) (tx : Transaction) (reason : CanonicalReason A)
      → AreIds graph
      → IsKnown tx
      → IsMarks self
      → (marking_of self txid tx reason).detected ≡ true
      → (((i : ℕ)
            → BtreeMap.get i (mark_canonical graph self txid tx reason).canonical
              ≡ BtreeMap.get i self.canonical)
          × ((j : ℕ)
              → IdSet.contains (mark_canonical graph self txid tx reason).not_canonical j
                ≡ IdSet.contains self.not_canonical j))
        × ((mark_canonical graph self txid tx reason).canonical_order ≡ self.canonical_order)
  unfolding mark_canonical settle
  mark_canonical-undo self txid tx reason ids k h d =
      let u = marking_of-IsUnderway self txid tx reason ids k h in
      (
        (
          λ i. rw (mark_canonical, settle, d) (undo_get self (marking_of self txid tx reason) u i),
          λ j.
              rw (mark_canonical, settle, d)
                (undo_contains self (marking_of self txid tx reason) u j),
        ),
        rw (mark_canonical, settle, d) refl,
      )
