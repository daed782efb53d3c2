-- ===== src/Chain/SpkIter.antt =====
-- `SpkIterator` of `crates/chain/src/spk_iter.rs`, which derives the scripts of a descriptor. A
-- descriptor of the library is `has_wildcard` and `derive`: the script at an index, or `none` where
-- that needs a hardened derivation.
pub mod Bounds
mod Tests
use bdk.Prelude.{
  ℕ, ◌+◌, ◌-◌, ◌^◌, min, Bool, true, false, not, ◌&&◌, Option, none, some, ltb, leb, ◌==◌,
  if◌then◌else◌,
}
use bdk.Core.Checkpoint.{u32_mod, saturating_add}
use bdk.Core.Checkpoint.Range.{Bound, included, excluded, unbounded}

abbrev pub bip32_max_index : ℕ
bip32_max_index = 2 ^ 31 - 1

-- The descriptor and the context of the library are arguments of the operations.
pub record SpkIterator : Type 0 where
  pub next_index : ℕ
  pub end : ℕ

abbrev range_start : Bound → ℕ
range_start (included start) = start
range_start (excluded start) = saturating_add start 1
range_start unbounded = 0

abbrev range_end : Bound → ℕ
range_end (included end) = saturating_add end 1
range_end (excluded end) = end
range_end unbounded = u32_mod - 1

pub new_with_range : Bound → Bound → SpkIterator
new_with_range lower upper = record {
  next_index = range_start lower;
  end = min (range_end upper) (bip32_max_index + 1);
}

abbrev pub new : SpkIterator
new = new_with_range (included 0) (included bip32_max_index)

module _ {S : Type 0} (has_wildcard : Bool) (derive : ℕ → Option S) where
  -- `Iterator::next`: the new iterator and the item; `none` is the panic of `expect`.
  pub step : SpkIterator → Option (SpkIterator × Option (ℕ × S))
  step self =
      if leb self.end self.next_index
      then some (self, none)
      else if not has_wildcard && not (self.next_index == 0)
      then some (self, none)
      else elim (derive self.next_index) [
        | some script ↦ some (
          record { next_index = self.next_index + 1; end = self.end },
          some (self.next_index, script),
        )
        | none ↦ none
      ]

  -- `u32::try_from(n).unwrap_or(u32::MAX)` is the smaller of `n` and the largest `u32`.
  pub nth : SpkIterator → ℕ → Option (SpkIterator × Option (ℕ × S))
  unfolding step
  nth self n =
      step (record {
        next_index = saturating_add self.next_index (min n (u32_mod - 1));
        end = self.end;
      })
