-- ===== src/Mweb/Sync/Dated.antt =====
-- The height that `date_leaf_index` of `crates/mweb/src/mweb_sync.rs` gives a leaf.
use bdk.Prelude.{
  ℕ, ◌<◌, ◌≤◌, ◌≡◌, refl, sym, ap, subst, ◌∙◌, ◌⊎◌, true, false, Option, none, some, [], ◌∷◌, ltb,
  ◌==◌, ==_iff, arith, Bool-cases, inl, inr, All,
}
use bdk.Prelude.BtreeMap
use bdk.Prelude.BtreeMap.{BtreeMap, IsSorted, IsAbove}
use bdk.Mweb.Sync.{date_leaf_index}

-- The height has more leaves than the index and no lower sampled height has, or no sampled height
-- has and it is the tip.
abbrev pub IsDated : BtreeMap ℕ → ℕ → ℕ → ℕ → Type 0
IsDated height_map leaf_index tip_height height =
    ((leaves : ℕ) × ((BtreeMap.get height height_map ≡ some leaves)
        × ((leaf_index < leaves)
            × All (λ (e : ℕ × ℕ). e.0 < height → e.1 ≤ leaf_index) height_map)))
    ⊎ ((height ≡ tip_height) × All (λ (e : ℕ × ℕ). e.1 ≤ leaf_index) height_map)

none-some : {n : ℕ} → ◌≡◌ {A = Option ℕ} none (some n) → ⊥
none-some e = cc

-- No entry of a map above a height is below it.
none_below :
    (height leaf_index : ℕ) (m : BtreeMap ℕ)
    → IsAbove height m
    → All (λ (e : ℕ × ℕ). e.0 < height → e.1 ≤ leaf_index) m
none_below height leaf_index [] a = tt
none_below height leaf_index ((h, n) ∷ m) a =
    ((λ l. absurd (omega (arith, l, a.0))), none_below height leaf_index m a.1)

date_here :
    (h n leaf_index tip_height : ℕ) (m : BtreeMap ℕ)
    → ltb leaf_index n ≡ true
    → date_leaf_index ((h, n) ∷ m) leaf_index tip_height ≡ h
unfolding date_leaf_index
date_here h n leaf_index tip_height m e = rw (date_leaf_index, e) refl

date_later :
    (h n leaf_index tip_height : ℕ) (m : BtreeMap ℕ)
    → ltb leaf_index n ≡ false
    → date_leaf_index ((h, n) ∷ m) leaf_index tip_height ≡ date_leaf_index m leaf_index tip_height
unfolding date_leaf_index
date_later h n leaf_index tip_height m e = rw (date_leaf_index, e) refl

-- A leaf is dated to the first sampled height that has more leaves than its index, and to the tip
-- when no height has. The heights of the map ascend.
pub date_leaf_index-IsDated :
    (height_map : BtreeMap ℕ) (leaf_index tip_height : ℕ)
    → IsSorted height_map
    → IsDated height_map leaf_index tip_height (date_leaf_index height_map leaf_index tip_height)
unfolding date_leaf_index BtreeMap.get
date_leaf_index-IsDated [] leaf_index tip_height s = inr (refl, tt)
date_leaf_index-IsDated ((h, n) ∷ m) leaf_index tip_height s =
    let low : ltb leaf_index n ≡ false → n ≤ leaf_index = λ e. ground (arith, e) in
    let date = date_leaf_index m leaf_index tip_height in
    elim (Bool-cases (ltb leaf_index n)) [
      | inl e ↦
          subst (IsDated ((h, n) ∷ m) leaf_index tip_height)
            (sym (date_here h n leaf_index tip_height m e))
            (inl (
              n,
              (
                (rw ((==_iff h h).1 refl) refl),
                (
                  ground (arith, e),
                  ((λ l. absurd (omega (arith, l))), none_below h leaf_index m s.0),
                ),
              ),
            ))
      | inr e ↦
          subst (IsDated ((h, n) ∷ m) leaf_index tip_height)
            (sym (date_later h n leaf_index tip_height m e))
            (elim (date_leaf_index-IsDated m leaf_index tip_height s.1) [
              | inl (leaves, (g, (more, before))) ↦ inl (
                leaves,
                (
                  elim (Bool-cases (date == h)) [
                    | inl d ↦ absurd (
                        none-some (
                          sym (BtreeMap.get_self-IsAbove h m s.0)
                          ∙ (ap (λ i. BtreeMap.get i m) (sym ((==_iff date h).0 d)) ∙ g)))
                    | inr d ↦ rw d g
                  ],
                  (more, ((λ l. low e), before)),
                ),
              )
              | inr (last, all) ↦ inr (last, (low e, all))
            ])
    ]
