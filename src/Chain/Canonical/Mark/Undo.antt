-- ===== src/Chain/Canonical/Mark/Undo.antt =====
-- What removing the staged transactions and the undone rejections leaves.
use bdk.Prelude.{ℕ, ◌≡◌, refl, not, ◌&&◌, none, List, [], ◌∷◌, if◌then◌else◌, arith}
use bdk.Prelude.BtreeMap
use bdk.Prelude.BtreeMap.{BtreeMap, IsSorted}
use bdk.Prelude.IdSet
use bdk.Prelude.IdSet.{IdSet}
use bdk.Chain.Canonical.Mark.{remove_all, remove_ids}

module _ {V : Type 0} where
  pub remove_all-IsSorted : (ks : List ℕ) (m : BtreeMap V) → IsSorted m → IsSorted (remove_all ks m)
  remove_all-IsSorted [] m s = s
  remove_all-IsSorted (k ∷ ks) m s =
      remove_all-IsSorted ks (BtreeMap.remove k m) (BtreeMap.remove-IsSorted k m s)

  pub get-remove_all :
      (i : ℕ) (ks : List ℕ) (m : BtreeMap V)
      → IsSorted m
      → BtreeMap.get i (remove_all ks m) ≡ (if IdSet.contains ks i then none else BtreeMap.get i m)
  unfolding IdSet.contains
  get-remove_all i [] m s = refl
  get-remove_all i (k ∷ ks) m s = ground (
    arith,
    get-remove_all i ks (BtreeMap.remove k m) (BtreeMap.remove-IsSorted k m s),
    BtreeMap.get-remove i k m s,
  )

pub contains-remove_ids :
    (i : ℕ) (ks : List ℕ) (s : IdSet)
    → IdSet.contains (remove_ids ks s) i ≡ (not (IdSet.contains ks i) && IdSet.contains s i)
unfolding IdSet.contains
contains-remove_ids i [] s = refl
contains-remove_ids i (k ∷ ks) s =
    ground (arith, contains-remove_ids i ks (IdSet.remove k s), IdSet.contains-remove i k s)
