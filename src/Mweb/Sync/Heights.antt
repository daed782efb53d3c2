-- ===== src/Mweb/Sync/Heights.antt =====
-- The heights that `coarse_sample_heights` of `crates/mweb/src/mweb_sync.rs` samples.
use bdk.Prelude.{
  ℕ, zero, suc, ◌+◌, ◌-◌, ◌<◌, ◌≤◌, ◌≡◌, refl, ap, min, max, false, Option, none, some, List, [],
  ◌∷◌, ◌++◌, ltb, head?, get_last?, arith, Bool-cases, inl, inr, All,
}
use bdk.Core.Checkpoint.{saturating_add, u32_mod}
use bdk.Mweb.Sync.{coarse_loop, coarse_sample_heights, is_last}

abbrev IsNear : ℕ → ℕ → Option ℕ → Type 0
IsNear stride x none = Unit
IsNear stride x (some y) = (x < y) × (y ≤ x + stride)

-- Each height is followed by a higher one at most a stride above.
abbrev pub AreSpaced : ℕ → List ℕ → Type 0
AreSpaced stride [] = Unit
AreSpaced stride (x ∷ heights) = IsNear stride x (head? heights) × AreSpaced stride heights

head-coarse_loop :
    (fuel h tip stride : ℕ)
    → tip - h ≤ fuel
    → head? (coarse_loop fuel h tip stride ++ (tip ∷ [])) ≡ some (min h tip)
unfolding coarse_loop
head-coarse_loop zero h tip stride l = ap some (omega (arith, l))
head-coarse_loop (suc fuel) h tip stride l = elim (Bool-cases (ltb h tip)) [
  | inl e ↦ rw (coarse_loop, e) (ap some (ground (arith, e)))
  | inr e ↦ rw (coarse_loop, e) (ap some (ground (arith, e)))
]

coarse_loop-AreSpaced :
    (fuel h tip stride : ℕ)
    → tip - h ≤ fuel
    → 0 < stride
    → tip < u32_mod
    → AreSpaced stride (coarse_loop fuel h tip stride ++ (tip ∷ []))
unfolding coarse_loop
coarse_loop-AreSpaced zero h tip stride l s u = (tt, tt)
coarse_loop-AreSpaced (suc fuel) h tip stride l s u = elim (Bool-cases (ltb h tip)) [
  | inl e ↦
      let next = saturating_add h stride in
      let near : tip - next ≤ fuel = ground (arith, e, l, s, u) in
      rw (coarse_loop, e)
        (
          rw (head-coarse_loop fuel next tip stride near)
              (ground (arith, e, s, u), ground (arith, e, s, u)),
          coarse_loop-AreSpaced fuel next tip stride near s u,
        )
  | inr e ↦ rw (coarse_loop, e) (tt, tt)
]

last-append : (l : List ℕ) (x : ℕ) → get_last? (l ++ (x ∷ [])) ≡ some x
last-append [] x = refl
last-append (y ∷ []) x = refl
last-append (y ∷ z ∷ l) x = last-append (z ∷ l) x

-- The heights of the loop are below the tip.
coarse_loop-All : (fuel h tip stride : ℕ) → All (λ x. x < tip) (coarse_loop fuel h tip stride)
unfolding coarse_loop
coarse_loop-All zero h tip stride = tt
coarse_loop-All (suc fuel) h tip stride = elim (Bool-cases (ltb h tip)) [
  | inl e ↦
      rw (coarse_loop, e)
        (ground (arith, e), coarse_loop-All fuel (saturating_add h stride) tip stride)
  | inr e ↦ rw (coarse_loop, e) tt
]

is_last_below : (l : List ℕ) (tip : ℕ) → All (λ x. x < tip) l → is_last l tip ≡ false
is_last_below [] tip a = refl
is_last_below (x ∷ []) tip a = ground (arith, a.0)
is_last_below (x ∷ y ∷ l) tip a = is_last_below (y ∷ l) tip a.1

-- The sampled heights start at the lower of the two heights and end at the tip, each followed by a
-- higher one that is at most a stride above, where a stride of zero counts as one. The tip is a
-- `u32`.
pub coarse_sample_heights-AreSpaced :
    (from_height tip_height stride : ℕ)
    → tip_height < u32_mod
    → (head? (coarse_sample_heights from_height tip_height stride)
        ≡ some (min from_height tip_height))
      × ((get_last? (coarse_sample_heights from_height tip_height stride) ≡ some tip_height)
          × AreSpaced (max stride 1) (coarse_sample_heights from_height tip_height stride))
unfolding coarse_sample_heights
coarse_sample_heights-AreSpaced from_height tip_height stride u =
    let fuel = tip_height - from_height in
    let out = coarse_loop fuel from_height tip_height (max stride 1) in
    rw
      (
        coarse_sample_heights,
        is_last_below out tip_height (coarse_loop-All fuel from_height tip_height (max stride 1)),
      )
      (
        head-coarse_loop fuel from_height tip_height (max stride 1) (omega arith),
        (
          last-append out tip_height,
          coarse_loop-AreSpaced fuel from_height tip_height (max stride 1) (omega arith)
              (omega arith) u,
        ),
      )
