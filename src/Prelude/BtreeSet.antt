-- ===== src/Prelude/BtreeSet.antt =====
-- `BTreeSet<T>` as the list of its elements in ascending order, for an order on its type.
use Prim.Native.Nat.{ℕ, compare, Ordering}
use mathlib.Core.Path.{◌≡◌}
use mathlib.Core.Bool.{Bool, true, false, not, ◌&&◌, ◌||◌}
use mathlib.Core.List.{List, [], ◌∷◌}
use native.Mathlib.Omega.{arith}
use bdk.Prelude.Tests.{◌==◌, if◌then◌else◌}

abbrev pub is_eq : Ordering → Bool
is_eq Ordering.eq = true
is_eq _ = false

module _ {A : Type 0} (cmp : A → A → Ordering) where
  unfoldable pub insert : A → List A → List A
  insert x [] = x ∷ []
  insert x (y ∷ s) =
      let rest = insert x s in
      elim (cmp x y) [ Ordering.lt ↦ x ∷ y ∷ s | Ordering.eq ↦ y ∷ s | Ordering.gt ↦ y ∷ rest ]

  unfoldable pub remove : A → List A → List A
  remove x [] = []
  remove x (y ∷ s) = let rest = remove x s in if is_eq (cmp x y) then rest else y ∷ rest

  unfoldable pub contains : List A → A → Bool
  contains [] x = false
  contains (y ∷ s) x = is_eq (cmp x y) || contains s x

  -- `BTreeSet::extend`.
  unfoldable pub extend : List A → List A → List A
  extend s [] = s
  extend s (x ∷ t) = extend (insert x s) t

-- The order of a pair of numbers.
abbrev pub cmp_pair : ℕ × ℕ → ℕ × ℕ → Ordering
cmp_pair a b = elim (compare a.0 b.0) [ Ordering.eq ↦ compare a.1 b.1 | o ↦ o ]

abbrev pub pair_eq : ℕ × ℕ → ℕ × ℕ → Bool
pair_eq a b = a.0 == b.0 && a.1 == b.1

pub is_eq-cmp_pair : (a b : ℕ × ℕ) → is_eq (cmp_pair a b) ≡ pair_eq a b
is_eq-cmp_pair (a, b) (c, d) = ground arith

pub contains_pair-insert :
    (x y : ℕ × ℕ) (s : List (ℕ × ℕ))
    → contains cmp_pair (insert cmp_pair x s) y ≡ (pair_eq y x || contains cmp_pair s y)
unfolding contains insert
contains_pair-insert (a, b) (c, d) [] = ground arith
contains_pair-insert (a, b) (c, d) ((e, f) ∷ s) =
    ground (arith, contains_pair-insert (a, b) (c, d) s)

pub contains_pair-remove :
    (x y : ℕ × ℕ) (s : List (ℕ × ℕ))
    → contains cmp_pair (remove cmp_pair x s) y ≡ (not (pair_eq y x) && contains cmp_pair s y)
unfolding contains remove
contains_pair-remove (a, b) (c, d) [] = ground arith
contains_pair-remove (a, b) (c, d) ((e, f) ∷ s) =
    ground (arith, contains_pair-remove (a, b) (c, d) s)
