-- ===== src/Chain/Balance/Total.antt =====
-- The total of a sum of balances.
use bdk.Prelude.{ℕ, ◌+◌, ◌<◌, ◌≡◌, refl, ap, ◌∙◌, u64_mod, some, lt→ltb, arith}
use bdk.Chain.Balance.{Balance, total, add}

-- The sum of the parts of a balance.
abbrev pub parts : Balance → ℕ
parts b = b.confirmed + b.trusted_pending + b.untrusted_pending + b.immature

total-below : (b : Balance) → parts b < u64_mod → total b ≡ some (parts b)
unfolding total
total-below b l = ground arith

total_eq_some : (b : Balance) (x : ℕ) → total b ≡ some x → (x ≡ parts b) × (parts b < u64_mod)
unfolding total
total_eq_some b x e = ground arith

-- Where two balances have totals whose sum is an amount, they have a sum, and its total is that sum.
pub total-add :
    (a b : Balance) (x y : ℕ)
    → total a ≡ some x
    → total b ≡ some y
    → x + y < u64_mod
    → (c : Balance) × (add a b ≡ some c) × (total c ≡ some (x + y))
unfolding add
total-add a b x y e f l =
    let (ea, la) = total_eq_some a x e in
    let (eb, lb) = total_eq_some b y f in
    let c : Balance = record {
      immature = a.immature + b.immature;
      trusted_pending = a.trusted_pending + b.trusted_pending;
      untrusted_pending = a.untrusted_pending + b.untrusted_pending;
      confirmed = a.confirmed + b.confirmed;
    } in
    (
      c,
      rw
          (
            lt→ltb (a.immature + b.immature) u64_mod (omega arith),
            lt→ltb (a.trusted_pending + b.trusted_pending) u64_mod (omega arith),
            lt→ltb (a.untrusted_pending + b.untrusted_pending) u64_mod (omega arith),
            lt→ltb (a.confirmed + b.confirmed) u64_mod (omega arith),
          )
          refl,
      total-below c (omega arith) ∙ ap some (omega arith),
    )
