-- ===== src/Chain/SpkIter/Bounds.antt =====
-- The iterator derives no hardened index, so it does not panic.
use bdk.Prelude.{
  ℕ, ◌+◌, ◌-◌, ◌≤◌, ◌<◌, ◌≡◌, refl, min, Bool, not, ◌&&◌, Option, none, some, arith, leb, ◌==◌,
  Bool-cases, inl, inr, leb→lt,
}
use bdk.Core.Checkpoint.{u32_mod}
use bdk.Core.Checkpoint.Range.{Bound, included, excluded, unbounded}
use bdk.Chain.SpkIter.{bip32_max_index, SpkIterator, new_with_range, step, nth}

abbrev pub IsBounded : SpkIterator → Type 0
IsBounded it = it.end ≤ bip32_max_index + 1

-- The end of an iterator over any range is at most the first hardened index.
pub new_with_range-IsBounded : (lower upper : Bound) → IsBounded (new_with_range lower upper)
unfolding new_with_range
new_with_range-IsBounded lower (included end) = ground arith
new_with_range-IsBounded lower (excluded end) = ground arith
new_with_range-IsBounded lower unbounded = ground arith

module _ {S : Type 0} (has_wildcard : Bool) (derive : ℕ → Option S) where
  -- What an iterator gives for the item `n` places on: the item and what comes behind it, or none.
  abbrev pub IsNext : SpkIterator → ℕ → SpkIterator × Option (ℕ × S) → Type 0
  IsNext it n (next, none) = next.end ≡ it.end
  IsNext it n (next, some (i, script)) =
      (next.end ≡ it.end)
      × (next.next_index ≡ i + 1)
      × (i ≡ it.next_index + n)
      × (i < it.end)
      × (derive i ≡ some script)

  step-IsNext :
      (it : SpkIterator)
      → ((i : ℕ) → i ≤ bip32_max_index → (script : S) × (derive i ≡ some script))
      → IsBounded it
      → (r : SpkIterator × Option (ℕ × S)) × (step has_wildcard derive it ≡ some r) × IsNext it 0 r
  unfolding step
  step-IsNext it total b = elim (Bool-cases (leb it.end it.next_index)) [
    | inl over ↦ ((it, none), rw over refl, refl)
    | inr within ↦ elim (Bool-cases (not has_wildcard && not (it.next_index == 0))) [
      | inl single ↦ ((it, none), rw (within, single) refl, refl)
      | inr going ↦
          let low : it.next_index < it.end = leb→lt it.end it.next_index within in
          let (script, derived) = total it.next_index (omega arith) in
          (
            (record { next_index = it.next_index + 1; end = it.end }, some (it.next_index, script)),
            rw (within, going, derived) refl,
            (refl, refl, omega arith, low, derived),
          )
    ]
  ]

  far_on :
      (it : SpkIterator) (m n : ℕ) (r : SpkIterator × Option (ℕ × S))
      → IsBounded it
      → m ≡ min (it.next_index + min n (u32_mod - 1)) (u32_mod - 1)
      → IsNext (record { next_index = m; end = it.end }) 0 r
      → IsNext it n r
  far_on it m n (next, none) b e x = x
  far_on it m n (next, some (i, script)) b e (same, behind, at, low, derived) =
      (same, behind, omega (arith, at, e, low, b), low, derived)

  -- Where the library derives a script at every index that is not hardened, an iterator
  -- whose end is in bounds does not panic: `nth` gives none, or the script of the index that many places on, which
  -- lies before the end, and stands behind it.
  pub nth-IsNext :
      (it : SpkIterator) (n : ℕ)
      → ((i : ℕ) → i ≤ bip32_max_index → (script : S) × (derive i ≡ some script))
      → IsBounded it
      → (r : SpkIterator × Option (ℕ × S)) × (nth has_wildcard derive it n ≡ some r) × IsNext it n r
  unfolding nth
  nth-IsNext it n total b =
      let m = min (it.next_index + min n (u32_mod - 1)) (u32_mod - 1) in
      let (r, given, holds) = step-IsNext (record { next_index = m; end = it.end }) total b in
      (r, given, far_on it m n r b refl holds)
