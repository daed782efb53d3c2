-- ===== src/Chain/Balance.antt =====
-- `Balance` of `crates/chain/src/balance.rs`. An amount is a `u64`; its addition in the library
-- panics on an overflow, which is `none`.
pub mod Total
mod Tests
use bdk.Prelude.{ℕ, ◌+◌, u64_mod, Option, none, some, and_then, ltb, if◌then◌else◌}

abbrev pub add_amounts : ℕ → ℕ → Option ℕ
add_amounts a b = if ltb (a + b) u64_mod then some (a + b) else none

pub record Balance : Type 0 where
  pub immature : ℕ
  pub trusted_pending : ℕ
  pub untrusted_pending : ℕ
  pub confirmed : ℕ

pub trusted_spendable : Balance → Option ℕ
trusted_spendable self = add_amounts self.confirmed self.trusted_pending

pub total : Balance → Option ℕ
total self =
    and_then (add_amounts self.confirmed self.trusted_pending)
      (λ a. and_then (add_amounts a self.untrusted_pending) (λ b. add_amounts b self.immature))

pub add : Balance → Balance → Option Balance
add self other = and_then (add_amounts self.immature other.immature) (λ i.
    and_then (add_amounts self.trusted_pending other.trusted_pending) (λ t.
      and_then (add_amounts self.untrusted_pending other.untrusted_pending) (λ u.
        and_then (add_amounts self.confirmed other.confirmed) (λ c.
          some
            (record { immature = i; trusted_pending = t; untrusted_pending = u; confirmed = c })))))
