-- ===== src/Mweb/Pmmr/Rounds.antt =====
-- The loop of `index_height` ends in as many rounds as its `u64` has bits.
use bdk.Prelude.{
  ℕ, zero, suc, ◌-◌, ◌/◌, ◌^◌, ◌<◌, ◌≤◌, ◌≡◌, refl, ap, arith, leb, ◌==◌, if◌then◌else◌,
}
use bdk.Mweb.Pmmr.{descend}

descend_done : (rounds height : ℕ) → descend rounds height 0 ≡ height
unfolding descend
descend_done zero height = refl
descend_done (suc rounds) height = refl

-- The loop on a peak size below `2 ^ rounds` ends within `rounds` rounds: any more that are left
-- change nothing.
pub descend_enough :
    (rounds left height peak_size : ℕ)
    → peak_size < 2 ^ rounds
    → rounds ≤ left
    → descend left height peak_size ≡ descend rounds height peak_size
unfolding descend
descend_enough zero left height zero l m = descend_done left height
descend_enough zero left height (suc p) l m = absurd (omega arith)
descend_enough (suc rounds) zero height p l m = absurd (omega arith)
descend_enough (suc rounds) (suc left) height zero l m = refl
descend_enough (suc rounds) (suc left) height (suc p) l m =
    ap (λ x. if suc p == 0 then height else x)
      (descend_enough rounds left (if leb (suc p) height then height - suc p else height)
        (suc p / 2) (omega arith) (omega arith))
