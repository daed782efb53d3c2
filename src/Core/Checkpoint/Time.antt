-- ===== src/Core/Checkpoint/Time.antt =====
-- `CheckPoint::median_time_past` of `crates/core/src/checkpoint.rs`.
mod Tests
use bdk.Prelude.{
  ℕ, zero, suc, ◌+◌, ◌-◌, ◌/◌, ◌≤◌, ◌<◌, ◌≡◌, refl, Option, none, some, List, [], ◌∷◌, Bool, true,
  false, ltb, leb, get_elem?, length, and_then, map_option, arith, Option-cases, Bool-cases, inl,
  inr, ==_iff, ◌==◌, subst, if◌then◌else◌,
}
use bdk.Core.Checkpoint.{CheckPoint, data_ref, height, get}

-- `MTP_BLOCK_COUNT`.
abbrev mtp_block_count : ℕ
mtp_block_count = 11

-- `sort_unstable` of the library, on numbers.
put : ℕ → List ℕ → List ℕ
put x [] = x ∷ []
put x (y ∷ ys) = let rest = put x ys in if leb x y then x ∷ y ∷ ys else y ∷ rest

sort : List ℕ → List ℕ
unfolding put
sort [] = []
sort (x ∷ xs) = put x (sort xs)

-- The trait `ToBlockTime` gives the time of a block's data.
module _ {D : Type 0} (to_blocktime : D → ℕ) where
  -- The times of `count` heights from `from` up, where all have a block.
  times : CheckPoint D → ℕ → ℕ → Option (List ℕ)
  times self from zero = some []
  times self from (suc count) =
      and_then (get self from)
        (λ cp. map_option (λ ts. to_blocktime (data_ref cp) ∷ ts) (times self (from + 1) count))

  pub median_time_past : CheckPoint D → Option ℕ
  unfolding times sort
  median_time_past self =
      let earliest_height = height self - (mtp_block_count - 1) in
      and_then (times self earliest_height (height self + 1 - earliest_height))
        (λ timestamps. get_elem? (sort timestamps) (length (sort timestamps) / 2))

  times_present :
      (c : CheckPoint D) (from count k : ℕ) {ts : List ℕ}
      → times c from count ≡ some ts
      → from ≤ k
      → k < from + count
      → (cp : CheckPoint D) × (get c k ≡ some cp)
  unfolding times
  times_present c from zero k e l u = absurd (omega arith)
  times_present c from (suc count) k e l u =
      go (get c from) (times c (from + 1) count) refl e
        (λ ts₁ f m. times_present c (from + 1) count k f m (omega arith))
    where
      go :
          (o : Option (CheckPoint D)) (rest : Option (List ℕ)) {ts₀ : List ℕ}
          → get c from ≡ o
          → and_then o (λ cp. map_option (λ ts. to_blocktime (data_ref cp) ∷ ts) rest) ≡ some ts₀
          → ((ts₁ : List ℕ)
              → rest ≡ some ts₁
              → from + 1 ≤ k
              → (cp : CheckPoint D) × (get c k ≡ some cp))
          → (cp : CheckPoint D) × (get c k ≡ some cp)
      go none rest f e ih = cc
      go (some cp) none f e ih = cc
      go (some cp) (some ts₁) f e ih = elim (Bool-cases (from == k)) [
        | inl here ↦ (cp, subst (λ h. get c h ≡ some cp) ((==_iff from k).0 here) f)
        | inr above ↦ ih ts₁ refl (ground arith)
      ]

  -- Where there is a median time past, each of the 11 heights up to the tip has a block, or each
  -- height from 0 up where there are fewer.
  pub median_time_past-eq-some :
      (c : CheckPoint D) (t k : ℕ)
      → median_time_past c ≡ some t
      → height c - 10 ≤ k
      → k ≤ height c
      → (cp : CheckPoint D) × (get c k ≡ some cp)
  unfolding median_time_past
  median_time_past-eq-some c t k e l u =
      go (times c (height c - 10) (height c + 1 - (height c - 10))) refl e
    where
      go :
          (o : Option (List ℕ))
          → times c (height c - 10) (height c + 1 - (height c - 10)) ≡ o
          → and_then o (λ timestamps. get_elem? (sort timestamps) (length (sort timestamps) / 2))
            ≡ some t
          → (cp : CheckPoint D) × (get c k ≡ some cp)
      go none f e = cc
      go (some ts) f e =
          times_present c (height c - 10) (height c + 1 - (height c - 10)) k f l (omega arith)
