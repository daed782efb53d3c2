-- ===== src/Chain/Canonical/View/Sum.antt =====
-- The balance of unspent outputs is the sum of their values.
use bdk.Prelude.{
  ℕ, ◌+◌, ◌-◌, ◌≤◌, ◌<◌, ◌≡◌, refl, Bool, true, false, Option, none, some, List, [], ◌∷◌, All, All,
  ltb, arith, Bool-cases, inl, inr, u64_mod, le→leb, lt→ltb, max,
}
use bdk.Core.Checkpoint.{saturating_add}
use bdk.Chain.Balance.{Balance, add_amounts}
use bdk.Chain.ChainPosition.{ChainPosition, confirmed, unconfirmed, confirmation_height_upper_bound}
use bdk.Chain.Tx.{OutPoint}
use bdk.Chain.Canonical.View.{
  CanonicalTxOut, CanonicalView, filter_outpoints, is_mature, is_confirmed_and_spendable, add_txout,
  add_txouts, balance, zero_balance, filter_unspent_outpoints, keep_unspent, is_unspent,
  add_pending, add_confirmed, add_immature,
}

abbrev pub amounts : Balance → ℕ
amounts b = b.immature + b.trusted_pending + b.untrusted_pending + b.confirmed

abbrev pub Adds : Option Balance → Balance → ℕ → Type 0
Adds o b v = (c : Balance) × ((o ≡ some c) × (amounts c ≡ amounts b + v))

fits : (a b : ℕ) → a + b < u64_mod → add_amounts a b ≡ some (a + b)
fits a b l = rw (lt→ltb (a + b) u64_mod l) refl

add_pending-Adds :
    (t : Bool) (b : Balance) (v : ℕ) → amounts b + v < u64_mod → Adds (add_pending t b v) b v
add_pending-Adds true b v l = (
  record b { trusted_pending = b.trusted_pending + v },
  (rw (fits b.trusted_pending v (omega (arith, l))) refl, omega arith),
)
add_pending-Adds false b v l = (
  record b { untrusted_pending = b.untrusted_pending + v },
  (rw (fits b.untrusted_pending v (omega (arith, l))) refl, omega arith),
)

add_confirmed-Adds : (b : Balance) (v : ℕ) → amounts b + v < u64_mod → Adds (add_confirmed b v) b v
add_confirmed-Adds b v l = (
  record b { confirmed = b.confirmed + v },
  (rw (fits b.confirmed v (omega (arith, l))) refl, omega arith),
)

add_immature-Adds : (b : Balance) (v : ℕ) → amounts b + v < u64_mod → Adds (add_immature b v) b v
add_immature-Adds b v l = (
  record b { immature = b.immature + v },
  (rw (fits b.immature v (omega (arith, l))) refl, omega arith),
)

module _ {A : Type 0} (bound : A → ℕ) (maturity : ℕ) where
  -- The output is not spent, and not confirmed above the tip.
  abbrev pub IsCounted : ℕ → CanonicalTxOut (ChainPosition A) → Type 0
  IsCounted tip txo =
      (txo.spent_by ≡ none)
      × ((h : ℕ) → confirmation_height_upper_bound bound txo.pos ≡ some h → h ≤ tip)

  mature_spendable :
      (tip : ℕ) (txo : CanonicalTxOut (ChainPosition A)) (anchor : A) (t : Option ℕ)
      → txo.pos ≡ confirmed anchor t
      → IsCounted tip txo
      → is_mature bound maturity txo tip ≡ true
      → is_confirmed_and_spendable bound maturity txo tip ≡ true
  unfolding is_confirmed_and_spendable confirmation_height_upper_bound
  mature_spendable tip txo anchor t e (unspent, seen) m =
      rw
        (
          is_confirmed_and_spendable,
          m,
          e,
          unspent,
          le→leb (bound anchor) tip (seen (bound anchor) (rw e refl)),
        )
        refl

  immature_spendable :
      (tip : ℕ) (txo : CanonicalTxOut (ChainPosition A))
      → is_mature bound maturity txo tip ≡ false
      → is_confirmed_and_spendable bound maturity txo tip ≡ false
  unfolding is_confirmed_and_spendable
  immature_spendable tip txo m = rw (is_confirmed_and_spendable, m) refl

  add_txout-Adds :
      (tip min_confirmations : ℕ) (t : Bool) (txo : CanonicalTxOut (ChainPosition A)) (b : Balance)
      → IsCounted tip txo
      → amounts b + txo.txout.value < u64_mod
      → Adds (add_txout bound maturity tip min_confirmations t txo b) b txo.txout.value
  unfolding add_txout
  add_txout-Adds tip min_confirmations t txo b k l = go txo.pos refl
    where
      go :
          (pos : ChainPosition A)
          → txo.pos ≡ pos
          → Adds (add_txout bound maturity tip min_confirmations t txo b) b txo.txout.value
      go (unconfirmed first_seen last_seen) e =
          rw (add_txout, e) (add_pending-Adds t b txo.txout.value l)
      go (confirmed anchor transitively) e =
          elim (Bool-cases
            (ltb (saturating_add (tip - bound anchor) 1) (max min_confirmations 1))) [
              | inl few ↦ rw (add_txout, e, few) (add_pending-Adds t b txo.txout.value l)
              | inr many ↦ elim (Bool-cases (is_mature bound maturity txo tip)) [
                | inl m ↦
                    rw (add_txout, e, many, mature_spendable tip txo anchor transitively e k m)
                      (add_confirmed-Adds b txo.txout.value l)
                | inr m ↦
                    rw (add_txout, e, many, immature_spendable tip txo m, m)
                      (add_immature-Adds b txo.txout.value l)
              ]
            ]

  abbrev pub sum_values : {O : Type 0} → List (O × CanonicalTxOut (ChainPosition A)) → ℕ
  sum_values [] = 0
  sum_values ((spk_i, txo) ∷ outs) = txo.txout.value + sum_values outs

  add_txouts-Adds :
      {O : Type 0} (trust : O → CanonicalTxOut (ChainPosition A) → Bool) (tip min_confirmations : ℕ)
      (outs : List (O × CanonicalTxOut (ChainPosition A))) (b : Balance)
      → All (λ (e : O × CanonicalTxOut (ChainPosition A)). IsCounted tip e.1) outs
      → amounts b + sum_values outs < u64_mod
      → Adds (add_txouts bound maturity trust tip min_confirmations outs b) b (sum_values outs)
  unfolding add_txouts
  add_txouts-Adds trust tip mc [] b k l = (b, (refl, omega arith))
  add_txouts-Adds trust tip mc ((spk_i, txo) ∷ outs) b k l =
      let (c, (e, same)) = add_txout-Adds tip mc (trust spk_i txo) txo b k.0 (omega (arith, l)) in
      let (d, (f, all)) = add_txouts-Adds trust tip mc outs c k.1 (omega (arith, l, same)) in
      (d, (rw (add_txouts, e) f, omega (arith, same, all)))

  unspent_none :
      (o : Option (ChainPosition A × ℕ))
      → (elim o [ none ↦ true | some spender ↦ false ]) ≡ true
      → o ≡ none
  unspent_none none h = refl
  unspent_none (some spender) h = cc

  -- No output is confirmed above the tip.
  abbrev pub AreSeen : {O : Type 0} → ℕ → List (O × CanonicalTxOut (ChainPosition A)) → Type 0
  AreSeen {O} tip outs =
      All
        (λ (e : O × CanonicalTxOut (ChainPosition A)).
          (h : ℕ) → confirmation_height_upper_bound bound e.1.pos ≡ some h → h ≤ tip)
        outs

  keep_unspent-AreCounted :
      {O : Type 0} (tip : ℕ) (outs : List (O × CanonicalTxOut (ChainPosition A)))
      → AreSeen tip (keep_unspent outs)
      → All (λ (e : O × CanonicalTxOut (ChainPosition A)). IsCounted tip e.1) (keep_unspent outs)
  unfolding keep_unspent
  keep_unspent-AreCounted tip [] s = tt
  keep_unspent-AreCounted tip ((spk_i, txo) ∷ outs) s = elim (Bool-cases (is_unspent txo)) [
    | inl y ↦
        let seen : AreSeen tip ((spk_i, txo) ∷ keep_unspent outs) = rw y at s in
        rw y ((unspent_none txo.spent_by y, seen.0), keep_unspent-AreCounted tip outs seen.1)
    | inr n ↦ rw n (keep_unspent-AreCounted tip outs (rw n at s))
  ]

  -- The balance of outputs none of which is confirmed above the tip is the sum of the values of
  -- those that are unspent, when the sum is a `u64`: it does not panic, and each value is in one of
  -- its amounts.
  pub balance-sum_values :
      {O : Type 0} (self : CanonicalView A) (outpoints : List (O × OutPoint))
      (outs : List (O × CanonicalTxOut (ChainPosition A)))
      (trust : O → CanonicalTxOut (ChainPosition A) → Bool) (min_confirmations : ℕ)
      → filter_outpoints self outpoints ≡ some outs
      → AreSeen self.tip.height (keep_unspent outs)
      → sum_values (keep_unspent outs) < u64_mod
      → (b : Balance) × ((balance bound maturity self outpoints trust min_confirmations ≡ some b)
          × (amounts b ≡ sum_values (keep_unspent outs)))
  unfolding balance filter_unspent_outpoints
  balance-sum_values self outpoints outs trust mc e seen l =
      let (b, (f, same)) =
        add_txouts-Adds trust self.tip.height mc (keep_unspent outs) zero_balance
          (keep_unspent-AreCounted self.tip.height outs seen) (omega (arith, l)) in
      (b, (rw (balance, filter_unspent_outpoints, e) f, omega (arith, same)))
