-- ===== src/Prelude/BtreeMap.antt =====
-- `BTreeMap<u32, V>` as the list of its entries in ascending key order.
use Prim.Native.Nat.{ℕ, ◌<◌}
use mathlib.Core.Path.{◌≡◌, refl, sym, ap, subst, ◌∙◌}
use mathlib.Core.Option.{Option, none, some}
use mathlib.Core.List.{List, [], ◌∷◌}
use native.Mathlib.Omega.{arith}
use mathlib.Core.Logic.{◌⊎◌, inl, inr}
use bdk.Prelude.Tests.{ltb, ◌==◌, ==_iff, Bool-cases, if◌then◌else◌}
use bdk.Prelude.Results.{or_else, some-injective}
use bdk.Prelude.Lists.{All}

abbrev pub BtreeMap {ℓ} : Type ℓ → Type ℓ
BtreeMap V = List (ℕ × V)

module _ {ℓ} {V : Type ℓ} where
  unfoldable pub insert : ℕ → V → BtreeMap V → BtreeMap V
  insert k v [] = (k, v) ∷ []
  insert k v ((j, w) ∷ m) =
      if ltb k j then (k, v) ∷ (j, w) ∷ m else if k == j then (k, v) ∷ m else (j, w) ∷ insert k v m

  unfoldable pub remove : ℕ → BtreeMap V → BtreeMap V
  remove k [] = []
  remove k ((j, w) ∷ m) = let rest = remove k m in if k == j then m else (j, w) ∷ rest

  unfoldable pub get : ℕ → BtreeMap V → Option V
  get k [] = none
  get k ((j, w) ∷ m) = let rest = get k m in if k == j then some w else rest

  -- Every key of the map is above `b`.
  abbrev pub IsAbove : ℕ → BtreeMap V → Type 0
  IsAbove b m = All (λ e. b < e.0) m

  -- The keys ascend strictly.
  abbrev pub IsSorted : BtreeMap V → Type 0
  IsSorted [] = Unit
  IsSorted ((k, v) ∷ m) = IsAbove k m × IsSorted m

  pub get-insert :
      (j k : ℕ) (v : V) (m : BtreeMap V)
      → get j (insert k v m) ≡ (if j == k then some v else get j m)
  unfolding get insert
  get-insert j k v [] = refl
  get-insert j k v ((i, w) ∷ m) = ground (arith, get-insert j k v m)

  pub get-insert_cases :
      (j k : ℕ) (v w : V) (m : BtreeMap V)
      → get j (insert k v m) ≡ some w
      → ((j ≡ k) × (v ≡ w)) ⊎ (get j m ≡ some w)
  get-insert_cases j k v w m h = elim (Bool-cases (j == k)) [
    | inl e ↦ inl ((==_iff j k).0 e, some-injective (rw e at (sym (get-insert j k v m) ∙ h)))
    | inr e ↦ inr (rw e at (sym (get-insert j k v m) ∙ h))
  ]

  pub IsAbove-trans : (a b : ℕ) (m : BtreeMap V) → a < b → IsAbove b m → IsAbove a m
  IsAbove-trans a b [] h t = tt
  IsAbove-trans a b ((i, w) ∷ m) h t = (omega arith, IsAbove-trans a b m h t.1)

  pub get-IsAbove : (j b : ℕ) (m : BtreeMap V) → j < b → IsAbove b m → get j m ≡ none
  unfolding get
  get-IsAbove j b [] l h = refl
  get-IsAbove j b ((i, w) ∷ m) l h = ground (arith, get-IsAbove j b m l h.1)

  pub get_self-IsAbove : (j : ℕ) (m : BtreeMap V) → IsAbove j m → get j m ≡ none
  unfolding get
  get_self-IsAbove j [] h = refl
  get_self-IsAbove j ((i, w) ∷ m) h = ground (arith, get_self-IsAbove j m h.1)

  pub get-remove :
      (j k : ℕ) (m : BtreeMap V)
      → IsSorted m
      → get j (remove k m) ≡ (if j == k then none else get j m)
  unfolding get remove
  get-remove j k [] s = ground arith
  get-remove j k ((i, w) ∷ m) s = ground (arith, get-remove j k m s.1, get_self-IsAbove i m s.0)

  pub insert-IsAbove :
      (b k : ℕ) (v : V) (m : BtreeMap V) → b < k → IsAbove b m → IsAbove b (insert k v m)
  unfolding insert
  insert-IsAbove b k v [] h t = (h, tt)
  insert-IsAbove b k v ((i, w) ∷ m) h t = ground (arith, insert-IsAbove b k v m h t.1)

  pub insert-IsSorted : (k : ℕ) (v : V) (m : BtreeMap V) → IsSorted m → IsSorted (insert k v m)
  unfolding insert
  insert-IsSorted k v [] s = (tt, tt)
  insert-IsSorted k v ((i, w) ∷ m) s =
      ground (arith, insert-IsSorted k v m s.1, insert-IsAbove i k v m, IsAbove-trans k i m)

  pub remove-IsAbove : (b k : ℕ) (m : BtreeMap V) → IsAbove b m → IsAbove b (remove k m)
  unfolding remove
  remove-IsAbove b k [] t = tt
  remove-IsAbove b k ((i, w) ∷ m) t = ground (arith, remove-IsAbove b k m t.1)

  pub remove-IsSorted : (k : ℕ) (m : BtreeMap V) → IsSorted m → IsSorted (remove k m)
  unfolding remove
  remove-IsSorted k [] s = tt
  remove-IsSorted k ((i, w) ∷ m) s =
      ground (arith, remove-IsSorted k m s.1, remove-IsAbove i k m s.0)

  -- Of two entries for a key, the one at the front is read.
  pub first_wins :
      (h : ℕ) (d : V) (rest : BtreeMap V) (k : ℕ) (o : Option V)
      → IsAbove h rest
      → or_else (get k rest) (if k == h then some d else o) ≡ or_else (get k ((h, d) ∷ rest)) o
  unfolding get
  first_wins h d rest k o up = elim (Bool-cases (k == h)) [
    | inl same ↦ rw (same, (==_iff k h).0 same, get_self-IsAbove h rest up)
    | inr other ↦ rw other
  ]

  -- What holds of every entry is kept.
  pub insert-All {κ} :
      (P : ℕ × V → Type κ) (k : ℕ) (v : V) (m : BtreeMap V)
      → P (k, v)
      → All P m
      → All P (insert k v m)
  unfolding insert
  insert-All P k v [] p a = (p, tt)
  insert-All P k v ((j, w) ∷ m) p a = elim (Bool-cases (ltb k j)) [
    | inl e ↦ rw e (p, a)
    | inr e ↦ elim (Bool-cases (k == j)) [
      | inl f ↦ rw (e, f) (p, a.1)
      | inr f ↦ rw (e, f) (a.0, insert-All P k v m p a.1)
    ]
  ]

  pub remove-All {κ} : (P : ℕ × V → Type κ) (k : ℕ) (m : BtreeMap V) → All P m → All P (remove k m)
  unfolding remove
  remove-All P k [] a = a
  remove-All P k ((j, w) ∷ m) a = elim (Bool-cases (k == j)) [
    | inl f ↦ rw f a.1
    | inr f ↦ rw f (a.0, remove-All P k m a.1)
  ]

  pub get-All {κ} :
      (P : ℕ × V → Type κ) (k : ℕ) (v : V) (m : BtreeMap V) → All P m → get k m ≡ some v → P (k, v)
  unfolding get
  get-All P k v [] a h = absurd cc
  get-All P k v ((j, w) ∷ m) a h = elim (Bool-cases (k == j)) [
    | inl e ↦
        let value : w ≡ v = some-injective (rw e at h) in
        subst P (ap (λ i. (i, w)) (sym ((==_iff k j).0 e)) ∙ ap (λ u. (k, u)) value) a.0
    | inr e ↦ get-All P k v m a.1 (rw e at h)
  ]
