-- ===== src/Core/Checkpoint/Range.antt =====
-- `CheckPoint::range` and what is built on it, of `crates/core/src/checkpoint.rs`.
pub mod Laws
use bdk.Prelude.{
  ℕ, ◌-◌, Bool, true, Option, none, some, List, [], ltb, leb, head?, take_while, and_then,
  if◌then◌else◌,
}
use bdk.Core.Checkpoint.{CheckPoint, height, walk_to_floor, iter}

-- `core::ops::Bound<u32>`.
pub data Bound : Type 0 where
  included excluded : ℕ → Bound
  unbounded : Bound

-- `u32::checked_sub`.
abbrev pub checked_sub : ℕ → ℕ → Option ℕ
checked_sub a b = if ltb a b then none else some (a - b)

-- The test of the `take_while`.
abbrev pub is_at_or_above : Bound → ℕ → Bool
is_at_or_above (included b) h = leb b h
is_at_or_above (excluded b) h = ltb b h
is_at_or_above unbounded h = true

abbrev pub is_at_or_below : Bound → ℕ → Bool
is_at_or_below (included b) h = leb h b
is_at_or_below (excluded b) h = ltb h b
is_at_or_below unbounded h = true

module _ {D : Type 0} where
  range_start : CheckPoint D → Bound → Option (CheckPoint D)
  range_start self (included b) = walk_to_floor self b
  range_start self (excluded b) = and_then (checked_sub b 1) (walk_to_floor self)
  range_start self unbounded = some self

  range_from : Option (CheckPoint D) → Bound → List (CheckPoint D)
  range_from none lower = []
  range_from (some start) lower = take_while (λ cp. is_at_or_above lower (height cp)) (iter start)

  pub range : CheckPoint D → Bound → Bound → List (CheckPoint D)
  unfolding range_start range_from
  range self lower upper = range_from (range_start self upper) lower

  pub floor_at : CheckPoint D → ℕ → Option (CheckPoint D)
  unfolding range
  floor_at self h = head? (range self unbounded (included h))

  pub floor_below : CheckPoint D → ℕ → Option (CheckPoint D)
  floor_below self offset = and_then (checked_sub (height self) offset) (floor_at self)
