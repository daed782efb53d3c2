-- ===== src/Mweb/Sync/Tests.antt =====
-- The sync cursor of `crates/mweb/src/mweb_sync.rs` on concrete heights.
use bdk.Prelude.{ℕ, ◌≡◌, refl, arith, [], ◌∷◌, some, min, max, head?, get_last?}
use bdk.Prelude.BtreeMap.{BtreeMap}
use bdk.Mweb.Sync.{date_leaf_index, coarse_loop, coarse_sample_heights, fine_sample_heights}
use bdk.Mweb.Sync.Heights.{AreSpaced, coarse_sample_heights-AreSpaced}
use bdk.Mweb.Sync.Dated.{IsDated, date_leaf_index-IsDated}

abbrev sampled : BtreeMap ℕ
sampled = (10, 5) ∷ (20, 9) ∷ []

date_leaf_index-IsDated_example : IsDated sampled 7 30 (date_leaf_index sampled 7 30)
date_leaf_index-IsDated_example = date_leaf_index-IsDated sampled 7 30 ((omega arith, tt), (tt, tt))

dated : date_leaf_index sampled 7 30 ≡ 20
unfolding date_leaf_index
dated = refl

undated : date_leaf_index sampled 9 30 ≡ 30
unfolding date_leaf_index
undated = refl

coarse_sample_heights-AreSpaced_example :
    (head? (coarse_sample_heights 3 12 4) ≡ some (min 3 12))
    × ((get_last? (coarse_sample_heights 3 12 4) ≡ some 12)
        × AreSpaced (max 4 1) (coarse_sample_heights 3 12 4))
coarse_sample_heights-AreSpaced_example = coarse_sample_heights-AreSpaced 3 12 4 (omega arith)

coarse_heights : coarse_sample_heights 3 12 4 ≡ 3 ∷ 7 ∷ 11 ∷ 12 ∷ []
unfolding coarse_sample_heights coarse_loop
coarse_heights = refl

-- The window goes no lower than height zero.
fine_heights : fine_sample_heights 2 500 ≡ 0 ∷ 1 ∷ 2 ∷ []
unfolding fine_sample_heights
fine_heights = refl
