-- ===== src/Chain/Canonical/View/Tests.antt =====
-- A view of two transactions: 1 is confirmed at 5 and 2 is not confirmed and spends an output of 1.
use bdk.Prelude.{ℕ, ◌≡◌, refl, true, false, none, some, List, [], ◌∷◌, arith}
use bdk.Prelude.BtreeMap
use bdk.Chain.Balance.{Balance}
use bdk.Chain.ChainPosition.{ChainPosition, confirmed, unconfirmed, confirmation_height_upper_bound}
use bdk.Chain.Tx.{OutPoint, Transaction}
use bdk.Chain.Canonical.View.{
  CanonicalView, CanonicalTxOut, filter_outpoints, txout, spent_by, keep_unspent, balance,
}
use bdk.Chain.Canonical.View.Sum.{amounts, balance-sum_values}

abbrev paying : ℕ → ℕ → Transaction
paying i v = record {
  txid = i;
  is_coinbase = false;
  input = [];
  output =
      (record { value = v; script_pubkey = 0 }) ∷ (record { value = 2; script_pubkey = 0 }) ∷ [];
}

abbrev view : CanonicalView ℕ
view = record {
  tip = record { height = 9; hash = 0 };
  order = 1 ∷ 2 ∷ [];
  txs = (1, (paying 1 50, confirmed 5 none)) ∷ (2, (paying 2 30, unconfirmed none (some 7))) ∷ [];
  spends = (1, (0, 2) ∷ []) ∷ [];
}

abbrev outpoints : List (ℕ × OutPoint)
outpoints =
    (0, record { txid = 1; vout = 0 })
    ∷ (1, record { txid = 1; vout = 1 })
    ∷ (2, record { txid = 2; vout = 0 })
    ∷ []

abbrev found : List (ℕ × CanonicalTxOut (ChainPosition ℕ))
found =
    (
      0,
      record {
        pos = confirmed 5 none;
        outpoint = record { txid = 1; vout = 0 };
        txout = record { value = 50; script_pubkey = 0 };
        spent_by = some (unconfirmed none (some 7), 2);
        is_on_coinbase = false;
      },
    )
    ∷ (
      1,
      record {
        pos = confirmed 5 none;
        outpoint = record { txid = 1; vout = 1 };
        txout = record { value = 2; script_pubkey = 0 };
        spent_by = none;
        is_on_coinbase = false;
      },
    )
    ∷ (
      2,
      record {
        pos = unconfirmed none (some 7);
        outpoint = record { txid = 2; vout = 0 };
        txout = record { value = 30; script_pubkey = 0 };
        spent_by = none;
        is_on_coinbase = false;
      },
    )
    ∷ []

finds : filter_outpoints view outpoints ≡ some found
unfolding filter_outpoints txout spent_by BtreeMap.get
finds = refl

balance-sum_values_example :
    (b : Balance) × ((balance (λ h. h) 100 view outpoints (λ i o. true) 1 ≡ some b)
      × (amounts b ≡ 32))
unfolding keep_unspent confirmation_height_upper_bound
balance-sum_values_example =
    balance-sum_values (λ h. h) 100 view outpoints found (λ i o. true) 1 finds
      ((λ h e. ground (arith, e)), ((λ h e. ground (arith, e)), tt)) (omega arith)
