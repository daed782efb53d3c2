-- ===== src/Core/Checkpoint/Tests.antt =====
-- The searches of a chain at inputs.
use bdk.Prelude.{true, false, refl, ◌≡◌, some, [], ◌∷◌}
use bdk.Core.Checkpoint.{ancestor_by_index, get, iter}
use bdk.Core.Checkpoint.Ancestor.{ancestor, ancestor_by_index-eq-ancestor}
use bdk.Core.Checkpoint.Floor.{find, get-eq-find}
use bdk.Core.Checkpoint.Range.{included, excluded, range}
use bdk.Core.Checkpoint.Range.Laws.{range-eq-filter}
use bdk.Core.Checkpoint.Iter.{checkpoint_eq}
use bdk.Chains.{block_1, block_2, block_3, block_5, block_5-IsValid}

get-eq-find_example : get block_5 2 ≡ some block_2
unfolding find
get-eq-find_example = get-eq-find block_5 2 block_5-IsValid.0

range-eq-filter_example : range block_5 (included 2) (excluded 5) ≡ block_3 ∷ block_2 ∷ []
unfolding iter
range-eq-filter_example = range-eq-filter block_5 (included 2) (excluded 5) block_5-IsValid.0

ancestor_by_index-eq-ancestor_example : ancestor_by_index block_5 1 ≡ block_1
unfolding ancestor
ancestor_by_index-eq-ancestor_example = ancestor_by_index-eq-ancestor block_5 1 block_5-IsValid.0

equal_ids : checkpoint_eq block_5 block_5 ≡ true
unfolding checkpoint_eq iter
equal_ids = refl

other_ids : checkpoint_eq block_5 block_3 ≡ false
unfolding checkpoint_eq iter
other_ids = refl
