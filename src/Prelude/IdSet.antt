-- ===== src/Prelude/IdSet.antt =====
-- `HashSet<Txid>` as a list of identifiers in ascending order.
use Prim.Native.Nat.{ℕ, suc, ◌≤◌, ◌<◌}
use mathlib.Core.Path.{◌≡◌, refl}
use mathlib.Core.Bool.{Bool, true, false, not, ◌&&◌, ◌||◌}
use mathlib.Core.List.{List, [], ◌∷◌, ◌++◌}
use bdk.Prelude.Lists.{length}
use native.Mathlib.Omega.{arith}
use bdk.Prelude.Tests.{ltb, ◌==◌, ==_iff, if◌then◌else◌}

abbrev pub IdSet : Type 0
IdSet = List ℕ

unfoldable pub contains : IdSet → ℕ → Bool
contains [] k = false
contains (j ∷ s) k = (k == j) || contains s k

unfoldable pub insert : ℕ → IdSet → IdSet
insert k [] = k ∷ []
insert k (j ∷ s) =
    let rest = insert k s in if ltb k j then k ∷ j ∷ s else if k == j then j ∷ s else j ∷ rest

unfoldable pub remove : ℕ → IdSet → IdSet
remove k [] = []
remove k (j ∷ s) = let rest = remove k s in if k == j then rest else j ∷ rest

pub contains-insert : (j k : ℕ) (s : IdSet) → contains (insert k s) j ≡ ((j == k) || contains s j)
unfolding contains insert
contains-insert j k [] = refl
contains-insert j k (i ∷ s) = ground (arith, contains-insert j k s)

pub contains-remove :
    (j k : ℕ) (s : IdSet) → contains (remove k s) j ≡ (not (j == k) && contains s j)
unfolding contains remove
contains-remove j k [] = ground arith
contains-remove j k (i ∷ s) = ground (arith, contains-remove j k s)

pub contains-append : (s t : List ℕ) (k : ℕ) → contains (s ++ t) k ≡ (contains s k || contains t k)
unfolding contains
contains-append [] t k = refl
contains-append (j ∷ s) t k = ground (arith, contains-append s t k)

-- How many of a list are not in the set.
unfoldable pub fresh : List ℕ → IdSet → ℕ
fresh [] s = 0
fresh (u ∷ us) s = let rest = fresh us s in if contains s u then rest else suc rest

pub fresh-le : (us : List ℕ) (s : IdSet) → fresh us s ≤ length us
unfolding fresh
fresh-le [] s = omega arith
fresh-le (u ∷ us) s = ground (arith, fresh-le us s)

pub fresh-insert : (us : List ℕ) (t : ℕ) (s : IdSet) → fresh us (insert t s) ≤ fresh us s
unfolding fresh
fresh-insert [] t s = omega arith
fresh-insert (u ∷ us) t s = ground (arith, fresh-insert us t s, contains-insert u t s)

pub fresh-lt :
    (us : List ℕ) (t : ℕ) (s : IdSet)
    → contains us t ≡ true
    → contains s t ≡ false
    → fresh us (insert t s) < fresh us s
unfolding fresh contains
fresh-lt [] t s h f = ground arith
fresh-lt (u ∷ us) t s h f =
    grind (arith, fresh-lt us t s, fresh-insert us t s, contains-insert u t s, ==_iff t u)
