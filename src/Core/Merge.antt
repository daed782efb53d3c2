-- ===== src/Core/Merge.antt =====
-- `trait Merge` of `crates/core/src/merge.rs` and its instances for maps, vectors and pairs.
use bdk.Prelude.{
  ℕ, ◌≡◌, refl, ap, ◌∙◌, Bool, true, false, ◌&&◌, Option, none, some, List, [], ◌∷◌, ◌++◌, or_else,
  if◌then◌else◌,
}
use bdk.Prelude.BtreeMap
use bdk.Prelude.BtreeMap.{BtreeMap, IsSorted, IsAbove}

pub record Merge (A : Type 0) : Type 0 where
  pub empty : A
  pub merge : A → A → A
  pub is_empty : A → Bool

-- `Merge::take`: what is left, and the value that was there.
pub take : {A : Type 0} → Merge A → A → A × Option A
take m self = if m.is_empty self then (self, none) else (m.empty, some self)

module _ {V : Type 0} where
  -- `BTreeMap::extend`.
  pub extend : BtreeMap V → BtreeMap V → BtreeMap V
  extend self [] = self
  extend self ((k, v) ∷ other) = extend (BtreeMap.insert k v self) other

abbrev pub list_is_empty {ℓ} : {A : Type ℓ} → List A → Bool
list_is_empty [] = true
list_is_empty (x ∷ xs) = false

abbrev pub map_merge : {V : Type 0} → Merge (BtreeMap V)
map_merge = record { empty = []; merge = extend; is_empty = list_is_empty }

abbrev pub vec_merge : {A : Type 0} → Merge (List A)
vec_merge = record { empty = []; merge = ◌++◌; is_empty = list_is_empty }

-- The tuple instances of the macro, at two fields.
abbrev pub pair_merge : {A B : Type 0} → Merge A → Merge B → Merge (A × B)
pair_merge a b = record {
  empty = (a.empty, b.empty);
  merge = λ x y. (a.merge x.0 y.0, b.merge x.1 y.1);
  is_empty = λ x. a.is_empty x.0 && (b.is_empty x.1 && true);
}

module _ {V : Type 0} where
  extend-IsSorted : (m n : BtreeMap V) → IsSorted m → IsSorted (extend m n)
  unfolding extend
  extend-IsSorted m [] s = s
  extend-IsSorted m ((k, v) ∷ n) s =
      extend-IsSorted (BtreeMap.insert k v m) n (BtreeMap.insert-IsSorted k v m s)

  or_else-extend :
      (k : ℕ) (m n : BtreeMap V)
      → IsSorted n
      → BtreeMap.get k (extend m n) ≡ or_else (BtreeMap.get k n) (BtreeMap.get k m)
  unfolding extend BtreeMap.get
  or_else-extend k m [] z = refl
  or_else-extend k m ((j, v) ∷ n) z =
      or_else-extend k (BtreeMap.insert j v m) n z.1
      ∙ ap (or_else (BtreeMap.get k n)) (BtreeMap.get-insert k j v m)
      ∙ BtreeMap.first_wins j v n k (BtreeMap.get k m) z.0

  -- The merge of two sorted maps reads as the other map where that has the key, and as the map
  -- before elsewhere; it is sorted.
  pub get-extend :
      (k : ℕ) (m n : BtreeMap V)
      → IsSorted m
      → IsSorted n
      → (BtreeMap.get k (extend m n) ≡ or_else (BtreeMap.get k n) (BtreeMap.get k m))
        × IsSorted (extend m n)
  get-extend k m n s z = (or_else-extend k m n z, extend-IsSorted m n s)
