-- ===== src/Mweb/CoinDb/Sums.antt =====
-- The sums of `balance` and `balance_at`, of `crates/mweb/src/coin_db.rs`.
use bdk.Prelude.{ℕ, ◌≡◌, refl, ◌∙◌, sym, ap, [], ◌∷◌, arith, Bool-cases, inl, inr}
use bdk.Prelude.BtreeMap.{BtreeMap}
use bdk.Mweb.CoinDb.{
  MwebCoin, MwebBalance, MwebCoinDatabase, total, saturating_add_u64, sum_from, balance,
  balance_from, balance_at, is_confirmed, add_coin,
}

saturating_add_comm :
    (c u a : ℕ)
    → saturating_add_u64 (saturating_add_u64 c u) a ≡ saturating_add_u64 (saturating_add_u64 c a) u
saturating_add_comm c u a = omega arith

saturating_add_assoc :
    (c u a : ℕ)
    → saturating_add_u64 (saturating_add_u64 c u) a ≡ saturating_add_u64 c (saturating_add_u64 u a)
saturating_add_assoc c u a = omega arith

total-add_coin :
    (tip : ℕ) (bal : MwebBalance) (coin : MwebCoin)
    → total (add_coin tip bal coin) ≡ saturating_add_u64 (total bal) coin.amount
unfolding total
total-add_coin tip bal coin = elim (Bool-cases (is_confirmed coin tip)) [
  | inl e ↦ rw e (saturating_add_comm bal.confirmed coin.amount bal.untrusted_pending)
  | inr e ↦ rw e (sym (saturating_add_assoc bal.confirmed bal.untrusted_pending coin.amount))
]

total-balance_from :
    (tip : ℕ) (bal : MwebBalance) (m : BtreeMap MwebCoin)
    → total (balance_from tip bal m) ≡ sum_from (total bal) m
unfolding balance_from sum_from
total-balance_from tip bal [] = refl
total-balance_from tip bal ((k, c) ∷ m) =
    total-balance_from tip (add_coin tip bal c) m
    ∙ ap (λ acc. sum_from acc m) (total-add_coin tip bal c)

-- The confirmed and the pending amount together are the amount of all coins, whatever the height of
-- the tip, also where the sums saturate.
pub total-balance_at :
    (db : MwebCoinDatabase) (tip_height : ℕ) → total (balance_at db tip_height) ≡ balance db
unfolding balance_at balance total
total-balance_at db tip_height =
    total-balance_from tip_height (record { confirmed = 0; untrusted_pending = 0 }) db.coins
