-- ===== src/Mweb/Pmmr/Position.antt =====
-- The positions of leaves ascend.
use bdk.Prelude.{
  ℕ, u64_mod, zero, suc, ◌*◌, ◌-◌, ◌/◌, ◌%◌, ◌≤◌, ◌<◌, ◌≡◌, refl, sym, subst, inl, inr, Bool-cases,
  ltb→lt, ltb→le, arith, ltb, lt→ltb,
}
use bdk.Mweb.Pmmr.{ones, count_ones, checked_leaf_position, leaf_position}

ones-le : (bits n : ℕ) → ones bits n ≤ n
unfolding ones
ones-le zero n = omega arith
ones-le (suc bits) n = omega (arith, ones-le bits (n / 2))

ones_same : (bits n m : ℕ) → n ≡ m → ones bits n ≡ ones bits m
ones_same bits n m e = rw e

-- One more leaf has at most one more bit.
ones-suc : (bits n : ℕ) → ones bits (suc n) ≤ suc (ones bits n)
unfolding ones
ones-suc zero n = omega arith
ones-suc (suc bits) n = go (n % 2) refl (ones-suc bits (n / 2))
  where
    go :
        (r : ℕ)
        → n % 2 ≡ r
        → ones bits (suc (n / 2)) ≤ suc (ones bits (n / 2))
        → ones (suc bits) (suc n) ≤ suc (ones (suc bits) n)
    go zero e l = omega (arith, ones_same bits (suc n / 2) (n / 2) (omega arith))
    go (suc r) e l = omega (arith, ones_same bits (suc n / 2) (suc (n / 2)) (omega arith), l)

leaf_position-eq : (i : ℕ) → i * 2 < u64_mod → leaf_position i ≡ i * 2 - count_ones i
unfolding leaf_position checked_leaf_position
leaf_position-eq i l = rw (lt→ltb (i * 2) u64_mod l, leaf_position, checked_leaf_position) refl

-- Where the position of the next leaf fits in a `u64`, it is above that of this leaf.
pub leaf_position-suc : (i : ℕ) → suc i * 2 < u64_mod → leaf_position i < leaf_position (suc i)
leaf_position-suc i l = omega (
  arith,
  leaf_position-eq i (omega arith),
  leaf_position-eq (suc i) l,
  ones-suc 64 i,
  ones-le 64 i,
)

-- Of two leaves whose doubled indices fit in a `u64`, the later has the higher position.
pub leaf_position-lt : (i j : ℕ) → i < j → j * 2 < u64_mod → leaf_position i < leaf_position j
leaf_position-lt i zero l b = absurd (omega arith)
leaf_position-lt i (suc j) l b = elim (Bool-cases (ltb i j)) [
  | inl below ↦
      omega (arith, leaf_position-lt i j (ltb→lt i j below) (omega arith), leaf_position-suc j b)
  | inr last ↦
      let same : i ≡ j = omega (arith, ltb→le i j last) in
      subst (λ k. leaf_position k < leaf_position (suc j)) (sym same) (leaf_position-suc j b)
]
