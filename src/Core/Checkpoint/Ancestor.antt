-- ===== src/Core/Checkpoint/Ancestor.antt =====
-- The walk by `prev` alone, with which `ancestor_by_index` of `crates/core/src/checkpoint.rs` is
-- compared, and what `CheckPoint::push` keeps of the pointers and indices of a chain.
use bdk.Prelude.{
  ℕ, suc, ◌≤◌, ◌<◌, ◌≡◌, refl, ap, ◌∙◌, true, Bool-cases, inl, inr, arith, ltb, ltb→lt, ltb→le,
  lt→ltb, if◌then◌else◌,
}
use bdk.Core.Checkpoint.{
  CheckPoint, base, link, height, index, skip_index, use_skip, ancestor_by_index,
}
use bdk.Core.BlockId.{BlockId}

use_skip-le : (i t : ℕ) → use_skip i t ≡ true → t ≤ skip_index i
use_skip-le i t h = ground arith

module _ {D : Type 0} where
  -- The first node at or below the index `target`, by `prev` alone.
  unfoldable pub ancestor : CheckPoint D → ℕ → CheckPoint D
  ancestor (base b d) target = base b d
  ancestor (link b d p s i) target =
      let by_prev = ancestor p target in if ltb target i then by_prev else link b d p s i

  -- The indices count up from the base, the heights ascend, and each skip pointer is the ancestor
  -- at the skip index.
  abbrev pub IsLinked : CheckPoint D → Type 0
  IsLinked (base b d) = Unit
  IsLinked (link b d p s i) =
      (i ≡ suc (index p)) × (height p < b.height) × (s ≡ ancestor p (skip_index i)) × IsLinked p

  pub index-ancestor :
      (c : CheckPoint D) (k : ℕ) → IsLinked c → k ≤ index c → index (ancestor c k) ≡ k
  unfolding ancestor
  index-ancestor (base b d) k w h = omega arith
  index-ancestor (link b d p s i) k w h = elim (Bool-cases (ltb k i)) [
    | inl below ↦ rw below (index-ancestor p k w.3 (omega (arith, ltb→lt k i below, w.0)))
    | inr here ↦ rw here (omega (arith, ltb→le k i here))
  ]

  pub height-ancestor : (c : CheckPoint D) (k : ℕ) → IsLinked c → height (ancestor c k) ≤ height c
  unfolding ancestor
  height-ancestor (base b d) k w = omega arith
  height-ancestor (link b d p s i) k w = elim (Bool-cases (ltb k i)) [
    | inl below ↦ rw below (omega (arith, height-ancestor p k w.3, w.1))
    | inr here ↦ rw here (omega arith)
  ]

  pub ancestor-IsLinked : (c : CheckPoint D) (k : ℕ) → IsLinked c → IsLinked (ancestor c k)
  unfolding ancestor
  ancestor-IsLinked (base b d) k w = w
  ancestor-IsLinked (link b d p s i) k w = elim (Bool-cases (ltb k i)) [
    | inl below ↦ rw below (ancestor-IsLinked p k w.3)
    | inr here ↦ rw here w
  ]

  -- An ancestor of an ancestor is an ancestor.
  pub ancestor-ancestor :
      (c : CheckPoint D) (k t : ℕ) → t ≤ k → ancestor (ancestor c k) t ≡ ancestor c t
  unfolding ancestor
  ancestor-ancestor (base b d) k t h = refl
  ancestor-ancestor (link b d p s i) k t h = elim (Bool-cases (ltb k i)) [
    | inl below ↦
        rw (below, lt→ltb t i (omega (arith, ltb→lt k i below))) (ancestor-ancestor p k t h)
    | inr here ↦ rw here refl
  ]

  pub skip-IsLinked :
      (b : BlockId) (d : D) (p s : CheckPoint D) (i : ℕ) → IsLinked (link b d p s i) → IsLinked s
  skip-IsLinked b d p s i w = rw (w.2) (ancestor-IsLinked p (skip_index i) w.3)

  -- On a linked chain, by skip pointers or not, the walk to an index ends at the same node.
  pub ancestor_by_index-eq-ancestor :
      (c : CheckPoint D) (t : ℕ) → IsLinked c → ancestor_by_index c t ≡ ancestor c t
  unfolding ancestor_by_index ancestor
  ancestor_by_index-eq-ancestor (base b d) t w = refl
  ancestor_by_index-eq-ancestor (link b d p s i) t w = elim (Bool-cases (ltb t i)) [
    | inl below ↦ elim (Bool-cases (use_skip i t)) [
      | inl ride ↦
          rw (below, ride)
            (ancestor_by_index-eq-ancestor s t (skip-IsLinked b d p s i w)
              ∙ ap (λ c. ancestor c t) w.2
              ∙ ancestor-ancestor p (skip_index i) t (use_skip-le i t ride))
      | inr back ↦ rw (below, back) (ancestor_by_index-eq-ancestor p t w.3)
    ]
    | inr here ↦ rw here refl
  ]

  -- The index of a linked checkpoint is at most its height.
  pub index-le-height : (c : CheckPoint D) → IsLinked c → index c ≤ height c
  index-le-height (base b d) w = omega arith
  index-le-height (link b d p s i) w = omega (arith, index-le-height p w.3, w.0, w.1)
