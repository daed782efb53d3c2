-- ===== src/Chain/Canonical/Descend/Enough.antt =====
-- The fuel of `descend` is enough, and what it rejects is closed under descendants.
use bdk.Prelude.{
  ℕ, zero, suc, ◌+◌, ◌≤◌, ◌≡◌, refl, subst, ap, ◌∙◌, Bool, true, false, ◌||◌, List, [], ◌∷◌, ◌++◌,
  ◌==◌, ==_iff, arith, Bool-cases, inl, inr,
}
use bdk.Prelude.BtreeMap
use bdk.Prelude.BtreeMap.{BtreeMap}
use bdk.Prelude.IdSet
use bdk.Prelude.IdSet.{
  IdSet, contains-insert, contains-append, fresh, fresh-le, fresh-lt, fresh-insert,
}
use bdk.Chain.TxGraph.{TxGraph, concat_map, or_empty, tx_spends}
use bdk.Chain.Canonical.Descend.{
  Pruned, reject, descend, spend_paths, prune_fuel, prune_each, all_spenders,
}

abbrev pub Includes : List ℕ → List ℕ → Type 0
Includes us q = (j : ℕ) → IdSet.contains q j ≡ true → IdSet.contains us j ≡ true

row_spenders :
    (m : BtreeMap (BtreeMap IdSet)) (t : ℕ)
    → Includes
        (concat_map (λ row. concat_map (λ e. e.1) row.1) m)
        (concat_map (λ e. e.1) (or_empty (BtreeMap.get t m)))
unfolding BtreeMap.get IdSet.contains
row_spenders [] t j h = h
row_spenders ((k, row) ∷ m) t j h = ground (
  arith,
  row_spenders m t j,
  h,
  contains-append (concat_map (λ e. e.1) row) (concat_map (λ r. concat_map (λ e. e.1) r.1) m) j,
)

pub rest_Includes : (us : List ℕ) (t : ℕ) (q : List ℕ) → Includes us (t ∷ q) → Includes us q
unfolding IdSet.contains
rest_Includes us t q i j h = i j (ground (arith, h))

pub head_Includes :
    (us : List ℕ) (t : ℕ) (q : List ℕ) → Includes us (t ∷ q) → IdSet.contains us t ≡ true
unfolding IdSet.contains
head_Includes us t q i = i t (ground arith)

pub append_Includes : (us q r : List ℕ) → Includes us q → Includes us r → Includes us (q ++ r)
append_Includes us q r i k j h = ground (arith, contains-append q r j, h, i j, k j)

pub zero_add : (n : ℕ) → zero + n ≡ n
zero_add n = omega arith

pub suc_add : (k n : ℕ) → suc k + n ≡ suc (k + n)
suc_add k n = omega arith

same_contains :
    (s : IdSet) (t j : ℕ) → IdSet.contains s t ≡ true → (j == t) ≡ true → IdSet.contains s j ≡ true
same_contains s t j h e = rw ((==_iff j t).0 e) h

insert-Includes :
    (s : IdSet) (t : ℕ) (v : IdSet)
    → IdSet.contains s t ≡ true
    → Includes s v
    → Includes s (IdSet.insert t v)
insert-Includes s t v h i j e = ground (arith, contains-insert j t v, e, i j, same_contains s t j h)

reject-Includes :
    (t : ℕ) (p : Pruned) (v : IdSet)
    → Includes p.not_canonical v
    → Includes (reject t p).not_canonical (IdSet.insert t v)
reject-Includes t p v i j e =
    ground (arith, contains-insert j t v, contains-insert j t p.not_canonical, e, i j)

nothing_Includes : (s : IdSet) → Includes s []
unfolding IdSet.contains
nothing_Includes s j h = ground arith

weaken : (a b : Bool) → (a || false) ≡ true → (a || b) ≡ true
weaken true b h = refl
weaken false b h = ground arith

module _ {A : Type 0} (graph : TxGraph A) where
  pub spend_paths-Includes : (t : ℕ) → Includes (all_spenders graph) (spend_paths graph t)
  unfolding tx_spends
  spend_paths-Includes t = row_spenders graph.spends t

  -- The descendants of the set are in the set or in the queue.
  abbrev pub IsClosedBut : List ℕ → IdSet → Type 0
  IsClosedBut queue s =
      (t j : ℕ)
      → IdSet.contains s t ≡ true
      → IdSet.contains (spend_paths graph t) j ≡ true
      → (IdSet.contains s j || IdSet.contains queue j) ≡ true

  skip :
      (t : ℕ) (queue : List ℕ) (s : IdSet)
      → IdSet.contains s t ≡ true
      → IsClosedBut (t ∷ queue) s
      → IsClosedBut queue s
  unfolding IdSet.contains
  skip t queue s h b u j x y = ground (arith, b u j x y, same_contains s t j h)

  expand :
      (t : ℕ) (queue : List ℕ) (p : Pruned)
      → IsClosedBut (t ∷ queue) p.not_canonical
      → IsClosedBut (queue ++ spend_paths graph t) (reject t p).not_canonical
  unfolding IdSet.contains
  expand t queue p b u j x y = elim (Bool-cases (u == t)) [
    | inl e ↦ ground (
      arith,
      contains-append queue (spend_paths graph t) j,
      subst (λ w. IdSet.contains (spend_paths graph w) j ≡ true) ((==_iff u t).0 e) y,
    )
    | inr e ↦ ground (
      arith,
      contains-append queue (spend_paths graph t) j,
      contains-insert u t p.not_canonical,
      contains-insert j t p.not_canonical,
      x,
      e,
      b u j,
    )
  ]

  module _ (us : List ℕ) (closed : (t : ℕ) → Includes us (spend_paths graph t)) where
    -- More fuel than there are fresh transactions changes nothing.
    descend_more :
        (fuel : ℕ) (visited : IdSet) (queue : List ℕ) (p : Pruned)
        → Includes us queue
        → fresh us p.not_canonical ≤ fuel
        → descend graph (suc fuel) visited queue p ≡ descend graph fuel visited queue p
    unfolding descend
    descend_more zero visited [] p i l = refl
    descend_more (suc fuel) visited [] p i l = refl
    descend_more zero visited (t ∷ queue) p i l = elim (Bool-cases (IdSet.contains visited t)) [
      | inl e ↦ rw (descend, e) (descend_more zero visited queue p (rest_Includes us t queue i) l)
      | inr e ↦ elim (Bool-cases (IdSet.contains p.not_canonical t)) [
        | inl n ↦
            rw (descend, e, n)
              (descend_more zero (IdSet.insert t visited) queue p (rest_Includes us t queue i) l)
        | inr n ↦ ground (arith, l, fresh-lt us t p.not_canonical (head_Includes us t queue i) n)
      ]
    ]
    descend_more (suc fuel) visited (t ∷ queue) p i l =
        elim (Bool-cases (IdSet.contains visited t)) [
          | inl e ↦
              rw (descend, e)
                (descend_more (suc fuel) visited queue p (rest_Includes us t queue i) l)
          | inr e ↦ elim (Bool-cases (IdSet.contains p.not_canonical t)) [
            | inl n ↦
                rw (descend, e, n)
                  (descend_more (suc fuel) (IdSet.insert t visited) queue p
                    (rest_Includes us t queue i) l)
            | inr n ↦
                rw (descend, e, n)
                  (descend_more fuel (IdSet.insert t visited) (queue ++ spend_paths graph t)
                    (reject t p)
                    (append_Includes us queue (spend_paths graph t) (rest_Includes us t queue i)
                      (closed t))
                    (omega
                      (arith, l, fresh-lt us t p.not_canonical (head_Includes us t queue i) n)))
          ]
        ]

    descend_any :
        (k fuel : ℕ) (visited : IdSet) (queue : List ℕ) (p : Pruned)
        → Includes us queue
        → fresh us p.not_canonical ≤ fuel
        → descend graph (k + fuel) visited queue p ≡ descend graph fuel visited queue p
    descend_any zero fuel visited queue p i l =
        ap (λ f. descend graph f visited queue p) (zero_add fuel)
    descend_any (suc k) fuel visited queue p i l =
        ap (λ f. descend graph f visited queue p) (suc_add k fuel)
        ∙ descend_more (k + fuel) visited queue p i (omega (arith, l))
        ∙ descend_any k fuel visited queue p i l

    -- A run with enough fuel leaves no descendant of a rejected transaction in the queue.
    descend_closed :
        (fuel : ℕ) (visited : IdSet) (queue : List ℕ) (p : Pruned)
        → Includes us queue
        → fresh us p.not_canonical ≤ fuel
        → Includes p.not_canonical visited
        → IsClosedBut queue p.not_canonical
        → IsClosedBut [] (descend graph fuel visited queue p).not_canonical
    unfolding descend
    descend_closed zero visited [] p i l v b = b
    descend_closed (suc fuel) visited [] p i l v b = b
    descend_closed zero visited (t ∷ queue) p i l v b =
        elim (Bool-cases (IdSet.contains visited t)) [
          | inl e ↦
              rw (descend, e)
                (descend_closed zero visited queue p (rest_Includes us t queue i) l v
                  (skip t queue p.not_canonical (v t e) b))
          | inr e ↦ elim (Bool-cases (IdSet.contains p.not_canonical t)) [
            | inl n ↦
                rw (descend, e, n)
                  (descend_closed zero (IdSet.insert t visited) queue p (rest_Includes us t queue i)
                    l (insert-Includes p.not_canonical t visited n v)
                    (skip t queue p.not_canonical n b))
            | inr n ↦
                ground (arith, l, fresh-lt us t p.not_canonical (head_Includes us t queue i) n)
          ]
        ]
    descend_closed (suc fuel) visited (t ∷ queue) p i l v b =
        elim (Bool-cases (IdSet.contains visited t)) [
          | inl e ↦
              rw (descend, e)
                (descend_closed (suc fuel) visited queue p (rest_Includes us t queue i) l v
                  (skip t queue p.not_canonical (v t e) b))
          | inr e ↦ elim (Bool-cases (IdSet.contains p.not_canonical t)) [
            | inl n ↦
                rw (descend, e, n)
                  (descend_closed (suc fuel) (IdSet.insert t visited) queue p
                    (rest_Includes us t queue i) l (insert-Includes p.not_canonical t visited n v)
                    (skip t queue p.not_canonical n b))
            | inr n ↦
                rw (descend, e, n)
                  (descend_closed fuel (IdSet.insert t visited) (queue ++ spend_paths graph t)
                    (reject t p)
                    (append_Includes us queue (spend_paths graph t) (rest_Includes us t queue i)
                      (closed t))
                    (omega (arith, l, fresh-lt us t p.not_canonical (head_Includes us t queue i) n))
                    (reject-Includes t p visited v) (expand t queue p b))
          ]
        ]

  -- The root and every spender are the transactions that a run can reach.
  root_Includes : (c : ℕ) (t : ℕ) → Includes (c ∷ all_spenders graph) (spend_paths graph t)
  unfolding IdSet.contains
  root_Includes c t j h = ground (arith, spend_paths-Includes t j h)

  root_fresh : (c : ℕ) (s : IdSet) → fresh (c ∷ all_spenders graph) s ≤ prune_fuel graph
  root_fresh c s = fresh-le (c ∷ all_spenders graph) s

  self_Includes : (c : ℕ) → Includes (c ∷ all_spenders graph) (c ∷ [])
  unfolding IdSet.contains
  self_Includes c j h = ground arith

  -- More fuel than the fuel of the loop over the conflicts changes nothing.
  pub descend-prune_fuel :
      (k c : ℕ) (p : Pruned)
      → descend graph (k + prune_fuel graph) [] (c ∷ []) p
        ≡ descend graph (prune_fuel graph) [] (c ∷ []) p
  descend-prune_fuel k c p =
      descend_any (c ∷ all_spenders graph) (root_Includes c) k (prune_fuel graph) [] (c ∷ []) p
        (self_Includes c) (root_fresh c p.not_canonical)

  -- Pruning the conflicts of a transaction keeps the rejected transactions closed under
  -- descendants.
  pub prune_each-IsClosed :
      (conflicts : List ℕ) (p : Pruned)
      → IsClosedBut [] p.not_canonical
      → IsClosedBut [] (prune_each graph conflicts p).not_canonical
  unfolding prune_each IdSet.contains
  prune_each-IsClosed [] p b = b
  prune_each-IsClosed (c ∷ conflicts) p b =
      prune_each-IsClosed conflicts (descend graph (prune_fuel graph) [] (c ∷ []) p) (
        descend_closed (c ∷ all_spenders graph) (root_Includes c) (prune_fuel graph) [] (c ∷ []) p
          (self_Includes c) (root_fresh c p.not_canonical) (nothing_Includes p.not_canonical)
          (λ t j x y.
            weaken (IdSet.contains p.not_canonical j) (IdSet.contains (c ∷ []) j) (b t j x y)))
