-- ===== src/Chain/Balance/Tests.antt =====
-- Sums of balances at inputs.
use bdk.Prelude.{◌≡◌, refl, some}
use bdk.Chain.Balance.{Balance, total}

abbrev spent : Balance
spent = record { immature = 1; trusted_pending = 20; untrusted_pending = 300; confirmed = 4000 }

abbrev received : Balance
received = record { immature = 0; trusted_pending = 5; untrusted_pending = 0; confirmed = 10 }

total-spent : total spent ≡ some 4321
unfolding total
total-spent = refl

total-received : total received ≡ some 15
unfolding total
total-received = refl
