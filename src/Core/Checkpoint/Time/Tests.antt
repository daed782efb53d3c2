-- ===== src/Core/Checkpoint/Time/Tests.antt =====
-- The median time past at inputs: the hash of a header stands for its time.
use bdk.Prelude.{◌≡◌, refl, none, some}
use bdk.Core.Checkpoint.{get, walk_to_floor}
use bdk.Core.Checkpoint.Time.{median_time_past, times, sort, put}
use bdk.Chain.LocalChain.Header.{Header}
use bdk.Chains.{block_3, block_5}

-- The higher of the two middle times.
median-block_3 : median_time_past (λ (h : Header). h.block_hash) block_3 ≡ some 102
unfolding median_time_past times sort put get walk_to_floor
median-block_3 = refl

median_with_gap : median_time_past (λ (h : Header). h.block_hash) block_5 ≡ none
unfolding median_time_past times get walk_to_floor
median_with_gap = refl
