-- ===== src/Chain/SpkIter/Tests.antt =====
-- The iterator over the scripts of a descriptor at inputs.
use bdk.Prelude.{ℕ, ◌≡◌, refl, true, Option, none, some, arith}
use bdk.Core.Checkpoint.Range.{included}
use bdk.Chain.SpkIter.{SpkIterator, new_with_range, nth, step}
use bdk.Chain.SpkIter.Bounds.{IsNext, nth-IsNext}

-- A wildcard descriptor whose script at an index is the index.
abbrev script_at : ℕ → Option ℕ
script_at i = some i

abbrev two_to_five : SpkIterator
two_to_five = record { next_index = 2; end = 6 }

range_two_to_five : new_with_range (included 2) (included 5) ≡ two_to_five
unfolding new_with_range
range_two_to_five = refl

past_the_end : nth true script_at two_to_five 4 ≡ some (record { next_index = 6; end = 6 }, none)
unfolding nth step
past_the_end = refl

nth-IsNext_example :
    (r : SpkIterator × Option (ℕ × ℕ)) × (nth true script_at two_to_five 3 ≡ some r)
    × IsNext true script_at two_to_five 3 r
nth-IsNext_example = nth-IsNext true script_at two_to_five 3 (λ i l. (i, refl)) (omega arith)
