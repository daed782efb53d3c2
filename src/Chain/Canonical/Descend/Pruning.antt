-- ===== src/Chain/Canonical/Descend/Pruning.antt =====
-- What pruning conflicts keeps, and that it reaches every conflict.
use bdk.Prelude.{
  ℕ, zero, suc, ◌≡◌, subst, length, true, false, ◌&&◌, ◌||◌, List, [], ◌∷◌, ◌++◌, ◌==◌, ==_iff,
  arith, Bool-cases, inl, inr,
}
use bdk.Prelude.IdSet
use bdk.Prelude.IdSet.{IdSet, contains-insert, contains-append}
use bdk.Chain.TxGraph.{TxGraph}
use bdk.Chain.Canonical.Descend.{
  Pruned, reject, descend, spend_paths, prune_fuel, prune_each, all_spenders,
}

-- A predicate that is kept when a transaction that is not yet rejected is rejected.
abbrev pub IsKept : (Pruned → Type 0) → Type 0
IsKept P = (t : ℕ) (p : Pruned) → IdSet.contains p.not_canonical t ≡ false → P p → P (reject t p)

-- What was rejected before is the set before, and `undo` has what is new.
abbrev pub IsUndoable : IdSet → Pruned → Type 0
IsUndoable before p =
    (j : ℕ)
    → (IdSet.contains p.not_canonical j ≡ (IdSet.contains p.undo j || IdSet.contains before j))
      × ((IdSet.contains p.undo j && IdSet.contains before j) ≡ false)

pub IsUndoable-IsKept : (before : IdSet) → IsKept (IsUndoable before)
unfolding IdSet.contains
IsUndoable-IsKept before t p fresh h j = (
  ground (arith, contains-insert j t p.not_canonical, contains-append p.undo (t ∷ []) j, h j, h t),
  ground (arith, ==_iff j t, contains-append p.undo (t ∷ []) j, h j, h t, fresh),
)

abbrev pub IsRejected : ℕ → Pruned → Type 0
IsRejected j p = IdSet.contains p.not_canonical j ≡ true

pub IsRejected-IsKept : (j : ℕ) → IsKept (IsRejected j)
IsRejected-IsKept j t p fresh h = ground (arith, contains-insert j t p.not_canonical, h)

module _ {A : Type 0} (graph : TxGraph A) where
  pub descend-IsKept :
      (P : Pruned → Type 0)
      → IsKept P
      → (fuel : ℕ) (visited : IdSet) (queue : List ℕ) (p : Pruned) → P p
      → P (descend graph fuel visited queue p)
  unfolding descend
  descend-IsKept P k zero visited [] p h = h
  descend-IsKept P k (suc fuel) visited [] p h = h
  descend-IsKept P k zero visited (t ∷ queue) p h = elim (Bool-cases (IdSet.contains visited t)) [
    | inl e ↦ rw (descend, e) (descend-IsKept P k zero visited queue p h)
    | inr e ↦ elim (Bool-cases (IdSet.contains p.not_canonical t)) [
      | inl n ↦ rw (descend, e, n) (descend-IsKept P k zero (IdSet.insert t visited) queue p h)
      | inr n ↦ rw (descend, e, n) h
    ]
  ]
  descend-IsKept P k (suc fuel) visited (t ∷ queue) p h =
      elim (Bool-cases (IdSet.contains visited t)) [
        | inl e ↦ rw (descend, e) (descend-IsKept P k (suc fuel) visited queue p h)
        | inr e ↦ elim (Bool-cases (IdSet.contains p.not_canonical t)) [
          | inl n ↦
              rw (descend, e, n) (descend-IsKept P k (suc fuel) (IdSet.insert t visited) queue p h)
          | inr n ↦
              rw (descend, e, n)
                (descend-IsKept P k fuel (IdSet.insert t visited) (queue ++ spend_paths graph t)
                  (reject t p) (k t p n h))
        ]
      ]

  pub prune_each-IsKept :
      (P : Pruned → Type 0)
      → IsKept P
      → (conflicts : List ℕ) (p : Pruned) → P p
      → P (prune_each graph conflicts p)
  unfolding prune_each
  prune_each-IsKept P k [] p h = h
  prune_each-IsKept P k (c ∷ conflicts) p h =
      prune_each-IsKept P k conflicts (descend graph (prune_fuel graph) [] (c ∷ []) p)
        (descend-IsKept P k (prune_fuel graph) [] (c ∷ []) p h)

  pub descend-root :
      (fuel : ℕ) (t : ℕ) (p : Pruned) → IsRejected t (descend graph (suc fuel) [] (t ∷ []) p)
  unfolding descend IdSet.contains
  descend-root fuel t p = elim (Bool-cases (IdSet.contains p.not_canonical t)) [
    | inl n ↦ rw (descend, n) n
    | inr n ↦
        rw (descend, n)
          (descend-IsKept (IsRejected t) (IsRejected-IsKept t) fuel (IdSet.insert t [])
            (spend_paths graph t) (reject t p)
            (ground (arith, contains-insert t t p.not_canonical)))
  ]

  pub prune_each-IsRejected :
      (conflicts : List ℕ) (p : Pruned) (j : ℕ)
      → IdSet.contains conflicts j ≡ true
      → IsRejected j (prune_each graph conflicts p)
  unfolding prune_each IdSet.contains
  prune_each-IsRejected [] p j h = ground arith
  prune_each-IsRejected (c ∷ conflicts) p j h = elim (Bool-cases (j == c)) [
    | inl e ↦
        prune_each-IsKept (IsRejected j) (IsRejected-IsKept j) conflicts
          (descend graph (prune_fuel graph) [] (c ∷ []) p)
          (subst (λ k. IsRejected j (descend graph (prune_fuel graph) [] (k ∷ []) p))
            ((==_iff j c).0 e) (descend-root (length (all_spenders graph)) j p))
    | inr e ↦
        prune_each-IsRejected conflicts (descend graph (prune_fuel graph) [] (c ∷ []) p) j
          (rw e at h)
  ]
