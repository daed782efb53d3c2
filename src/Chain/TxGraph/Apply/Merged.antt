-- ===== src/Chain/TxGraph/Apply/Merged.antt =====
-- Merged change sets, read at a transaction, and applied to a graph.
use Prim.Native.Nat.{Ordering}
use bdk.Prelude.{
  ℕ, ◌≡◌, refl, sym, ap, ◌∙◌, Bool, Option, none, some, [], ◌∷◌, filter, or_else, ◌==◌, ==_iff,
  if◌then◌else◌, arith, Bool-cases, inl, inr, and_then,
}
use bdk.Prelude.BtreeMap
use bdk.Prelude.BtreeMap.{BtreeMap, IsSorted, IsAbove}
use bdk.Core.Merge.{get-extend}
use bdk.Chain.Tx.{Transaction}
use bdk.Chain.TxGraph.{TxGraph, Anchor}
use bdk.Chain.TxGraph.ChangeSet.{ChangeSet, is_earlier, is_later, merge_first, merge_last, merge}
use bdk.Chain.TxGraph.Seen.Laws.{earliest, latest}
use bdk.Chain.TxGraph.Apply.{apply_changeset}
use bdk.Chain.TxGraph.Apply.Replay.{after, apply_changeset-times}

filter-IsAbove : (p : ℕ × ℕ → Bool) (b : ℕ) (m : BtreeMap ℕ) → IsAbove b m → IsAbove b (filter p m)
filter-IsAbove p b [] h = h
filter-IsAbove p b (e ∷ m) h = elim (Bool-cases (p e)) [
  | inl y ↦ rw y (h.0, filter-IsAbove p b m h.1)
  | inr n ↦ rw n (filter-IsAbove p b m h.1)
]

filter-IsSorted : (p : ℕ × ℕ → Bool) (m : BtreeMap ℕ) → IsSorted m → IsSorted (filter p m)
filter-IsSorted p [] s = s
filter-IsSorted p ((k, v) ∷ m) s = elim (Bool-cases (p (k, v))) [
  | inl y ↦ rw y (filter-IsAbove p k m s.0, filter-IsSorted p m s.1)
  | inr n ↦ rw n (filter-IsSorted p m s.1)
]

abbrev kept_value : (ℕ × ℕ → Bool) → ℕ → ℕ → Option ℕ
kept_value p k v = if p (k, v) then some v else none

get-filter :
    (p : ℕ × ℕ → Bool) (k : ℕ) (m : BtreeMap ℕ)
    → IsSorted m
    → BtreeMap.get k (filter p m) ≡ and_then (BtreeMap.get k m) (kept_value p k)
unfolding BtreeMap.get
get-filter p k [] s = refl
get-filter p k ((j, v) ∷ m) s = elim (Bool-cases (k == j)) [
  | inl e ↦
      rw ((==_iff k j).0 e, (==_iff j j).1 refl)
        elim (Bool-cases (p (j, v))) [
          | inl y ↦ rw (y, (==_iff j j).1 refl) refl
          | inr n ↦ rw n (BtreeMap.get_self-IsAbove j (filter p m) (filter-IsAbove p j m s.0))
        ]
  | inr d ↦ elim (Bool-cases (p (j, v))) [
    | inl y ↦ rw (y, d) (get-filter p k m s.1)
    | inr n ↦ rw (n, d) (get-filter p k m s.1)
  ]
]

merge_last-IsSorted : (m n : BtreeMap ℕ) → IsSorted m → IsSorted n → IsSorted (merge_last m n)
unfolding merge_last
merge_last-IsSorted m n s z =
    (get-extend 0 m (filter (is_later m) n) s (filter-IsSorted (is_later m) n z)).1

get-merge_last :
    (k : ℕ) (m n : BtreeMap ℕ)
    → IsSorted m
    → IsSorted n
    → BtreeMap.get k (merge_last m n) ≡ after latest (BtreeMap.get k m) (BtreeMap.get k n)
unfolding merge_last
get-merge_last k m n s z =
    (get-extend k m (filter (is_later m) n) s (filter-IsSorted (is_later m) n z)).0
    ∙ ap (λ o. or_else o (BtreeMap.get k m)) (get-filter (is_later m) k n z)
    ∙ ground arith

get-merge_first :
    (k : ℕ) (m n : BtreeMap ℕ)
    → IsSorted m
    → IsSorted n
    → BtreeMap.get k (merge_first m n) ≡ after earliest (BtreeMap.get k m) (BtreeMap.get k n)
unfolding merge_first
get-merge_first k m n s z =
    (get-extend k m (filter (is_earlier m) n) s (filter-IsSorted (is_earlier m) n z)).0
    ∙ ap (λ o. or_else o (BtreeMap.get k m)) (get-filter (is_earlier m) k n z)
    ∙ ground arith

after-latest :
    (a b c : Option ℕ) → after latest a (after latest b c) ≡ after latest (after latest a b) c
after-latest a b c = ground arith

-- The times of a change set ascend by transaction.
abbrev pub AreSorted : {A : Type 0} → ChangeSet A → Type 0
AreSorted c = IsSorted c.last_seen × (IsSorted c.last_evicted × IsSorted c.first_seen)

module _ {A : Type 0} (anchor : Anchor A) (cmp_tx : Transaction → Transaction → Ordering) where
  -- Two sorted change sets merged read, at each transaction, as the earliest of the times of first
  -- seen and the latest of the times of last seen and last evicted.
  pub merge-times :
      (c d : ChangeSet A) (i : ℕ)
      → AreSorted c
      → AreSorted d
      → (BtreeMap.get i (merge anchor.cmp cmp_tx c d).first_seen
          ≡ after earliest (BtreeMap.get i c.first_seen) (BtreeMap.get i d.first_seen))
        × ((BtreeMap.get i (merge anchor.cmp cmp_tx c d).last_seen
              ≡ after latest (BtreeMap.get i c.last_seen) (BtreeMap.get i d.last_seen))
            × (BtreeMap.get i (merge anchor.cmp cmp_tx c d).last_evicted
                ≡ after latest (BtreeMap.get i c.last_evicted) (BtreeMap.get i d.last_evicted)))
  unfolding merge
  merge-times c d i s z = (
    get-merge_first i c.first_seen d.first_seen s.1.1 z.1.1,
    (
      get-merge_last i c.last_seen d.last_seen s.0 z.0,
      get-merge_last i c.last_evicted d.last_evicted s.1.0 z.1.0,
    ),
  )

  -- Sorted change sets applied one after the other, or merged and applied at once, leave a graph
  -- with the same times of last seen and last evicted.
  pub apply_changeset-merge :
      (g : TxGraph A) (c d : ChangeSet A) (i : ℕ)
      → AreSorted c
      → AreSorted d
      → (BtreeMap.get i (apply_changeset anchor cmp_tx g (merge anchor.cmp cmp_tx c d)).last_seen
          ≡ BtreeMap.get i
              (apply_changeset anchor cmp_tx (apply_changeset anchor cmp_tx g c) d).last_seen)
        × (BtreeMap.get i
              (apply_changeset anchor cmp_tx g (merge anchor.cmp cmp_tx c d)).last_evicted
            ≡ BtreeMap.get i
                (apply_changeset anchor cmp_tx (apply_changeset anchor cmp_tx g c) d).last_evicted)
  unfolding merge
  apply_changeset-merge g c d i s z =
      let (ls, (le, _)) =
        apply_changeset-times anchor cmp_tx g (merge anchor.cmp cmp_tx c d) i
          (merge_last-IsSorted c.last_seen d.last_seen s.0 z.0)
          (merge_last-IsSorted c.last_evicted d.last_evicted s.1.0 z.1.0) in
      let (ls_c, (le_c, _)) = apply_changeset-times anchor cmp_tx g c i s.0 s.1.0 in
      let (ls_d, (le_d, _)) =
        apply_changeset-times anchor cmp_tx (apply_changeset anchor cmp_tx g c) d i z.0 z.1.0 in
      (
        ls
            ∙ ap (after latest (BtreeMap.get i g.last_seen))
                (get-merge_last i c.last_seen d.last_seen s.0 z.0)
            ∙ after-latest (BtreeMap.get i g.last_seen) (BtreeMap.get i c.last_seen)
                (BtreeMap.get i d.last_seen)
            ∙ sym (ls_d ∙ ap (λ o. after latest o (BtreeMap.get i d.last_seen)) ls_c),
        le
            ∙ ap (after latest (BtreeMap.get i g.last_evicted))
                (get-merge_last i c.last_evicted d.last_evicted s.1.0 z.1.0)
            ∙ after-latest (BtreeMap.get i g.last_evicted) (BtreeMap.get i c.last_evicted)
                (BtreeMap.get i d.last_evicted)
            ∙ sym (le_d ∙ ap (λ o. after latest o (BtreeMap.get i d.last_evicted)) le_c),
      )
