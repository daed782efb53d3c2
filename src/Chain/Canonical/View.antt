-- ===== src/Chain/Canonical/View.antt =====
-- `Canonical` of `crates/chain/src/canonical.rs`: canonical transactions, their outputs, and the
-- balance of the unspent ones. An index of a map that is missing and the overflow of an amount are
-- panics, which are `none`.
pub mod Sum
mod Tests
use Prim.Native.Nat.{compare, Ordering}
use bdk.Prelude.{
  ℕ, ◌+◌, ◌-◌, ◌%◌, max, Bool, true, false, not, ◌&&◌, Option, none, some, List, [], ◌∷◌,
  map_option, and_then, get_elem?, ltb, leb, if◌then◌else◌,
}
use bdk.Prelude.BtreeMap
use bdk.Prelude.BtreeMap.{BtreeMap}
use bdk.Core.BlockId.{BlockId}
use bdk.Core.Checkpoint.{u32_mod, saturating_add}
use bdk.Chain.Balance.{Balance, add_amounts}
use bdk.Chain.ChainPosition.{
  ChainPosition, confirmed, unconfirmed, confirmation_height_upper_bound, or_then, cmp_none_last,
}
use bdk.Chain.Canonical.Reason.{CanonicalReason}
use bdk.Chain.Tx.{OutPoint, TxOut, Transaction}
use bdk.Chain.TxGraph.ChangeSet.{OutPointMap}

pub record CanonicalTx (P : Type 0) : Type 0 where
  pub pos : P
  pub txid : ℕ
  pub tx : Transaction

pub record CanonicalTxOut (P : Type 0) : Type 0 where
  pub pos : P
  pub outpoint : OutPoint
  pub txout : TxOut
  pub spent_by : Option (P × ℕ)
  pub is_on_coinbase : Bool

pub record Canonical (P : Type 0) : Type 0 where
  pub tip : BlockId
  pub order : List ℕ
  pub txs : BtreeMap (Transaction × P)
  pub spends : OutPointMap ℕ

abbrev pub CanonicalTxs : Type 0 → Type 0
CanonicalTxs A = Canonical (CanonicalReason A)

abbrev pub CanonicalView : Type 0 → Type 0
CanonicalView A = Canonical (ChainPosition A)

abbrev pub spender_at : OutPointMap ℕ → OutPoint → Option ℕ
spender_at spends op = and_then (BtreeMap.get op.txid spends) (BtreeMap.get op.vout)

module _ {P : Type 0} where
  -- `Ord for CanonicalTx`, for an order of positions.
  pub cmp : (P → P → Ordering) → CanonicalTx P → CanonicalTx P → Ordering
  cmp cmp_pos a b = or_then (cmp_pos a.pos b.pos) (compare a.txid b.txid)

  pub tx : Canonical P → ℕ → Option (CanonicalTx P)
  tx self txid =
      map_option (λ e. record { pos = e.1; txid = txid; tx = e.0 }) (BtreeMap.get txid self.txs)

  -- The spender of an output and its position: `none` if the view has no such transaction.
  unfoldable pub spent_by : Canonical P → OutPoint → Option (Option (P × ℕ))
  spent_by self op = elim (spender_at self.spends op) [
    | none ↦ some none
    | some txid ↦ map_option (λ e. some (e.1, txid)) (BtreeMap.get txid self.txs)
  ]

  abbrev out_of : OutPoint → Transaction × P → TxOut → Option (P × ℕ) → CanonicalTxOut P
  out_of op entry txout spent = record {
    pos = entry.1;
    outpoint = op;
    txout = txout;
    spent_by = spent;
    is_on_coinbase = entry.0.is_coinbase;
  }

  -- The output at an outpoint, `some none` if there is none.
  unfoldable pub txout : Canonical P → OutPoint → Option (Option (CanonicalTxOut P))
  txout self op = elim (BtreeMap.get op.txid self.txs) [
    | none ↦ some none
    | some entry ↦ elim (get_elem? entry.0.output op.vout) [
      | none ↦ some none
      | some out ↦ map_option (λ spent. some (out_of op entry out spent)) (spent_by self op)
    ]
  ]

  abbrev list_from : Canonical P → List ℕ → Option (List (CanonicalTx P))
  list_from self [] = some []
  list_from self (txid ∷ order) = and_then (BtreeMap.get txid self.txs) (λ e.
      map_option (λ rest. record { pos = e.1; txid = txid; tx = e.0 } ∷ rest)
        (list_from self order))

  pub txs : Canonical P → Option (List (CanonicalTx P))
  txs self = list_from self self.order

  abbrev add_some :
      {O : Type 0}
      → O
      → Option (CanonicalTxOut P)
      → List (O × CanonicalTxOut P)
      → List (O × CanonicalTxOut P)
  add_some op_i none rest = rest
  add_some op_i (some txo) rest = (op_i, txo) ∷ rest

  unfoldable pub filter_outpoints :
      {O : Type 0} → Canonical P → List (O × OutPoint) → Option (List (O × CanonicalTxOut P))
  filter_outpoints self [] = some []
  filter_outpoints self ((op_i, op) ∷ outpoints) =
      and_then (txout self op)
        (λ found. map_option (add_some op_i found) (filter_outpoints self outpoints))

  abbrev pub is_unspent : CanonicalTxOut P → Bool
  is_unspent txo = elim txo.spent_by [ none ↦ true | some spender ↦ false ]

  unfoldable pub keep_unspent :
      {O : Type 0} → List (O × CanonicalTxOut P) → List (O × CanonicalTxOut P)
  keep_unspent [] = []
  keep_unspent ((op_i, txo) ∷ outs) =
      let rest = keep_unspent outs in if is_unspent txo then (op_i, txo) ∷ rest else rest

  unfoldable pub filter_unspent_outpoints :
      {O : Type 0} → Canonical P → List (O × OutPoint) → Option (List (O × CanonicalTxOut P))
  filter_unspent_outpoints self outpoints =
      map_option keep_unspent (filter_outpoints self outpoints)

abbrev pub add_trusted : Balance → ℕ → Option Balance
add_trusted b v =
    map_option (λ a. record b { trusted_pending = a }) (add_amounts b.trusted_pending v)

abbrev pub add_untrusted : Balance → ℕ → Option Balance
add_untrusted b v =
    map_option (λ a. record b { untrusted_pending = a }) (add_amounts b.untrusted_pending v)

abbrev pub add_pending : Bool → Balance → ℕ → Option Balance
add_pending is_trusted b v = if is_trusted then add_trusted b v else add_untrusted b v

abbrev pub add_confirmed : Balance → ℕ → Option Balance
add_confirmed b v = map_option (λ a. record b { confirmed = a }) (add_amounts b.confirmed v)

abbrev pub add_immature : Balance → ℕ → Option Balance
add_immature b v = map_option (λ a. record b { immature = a }) (add_amounts b.immature v)

abbrev pub zero_balance : Balance
zero_balance = record { immature = 0; trusted_pending = 0; untrusted_pending = 0; confirmed = 0 }

-- `bound` is `Anchor::confirmation_height_upper_bound`; `maturity` is the library's constant
-- `COINBASE_MATURITY`.
module _ {A : Type 0} (bound : A → ℕ) (maturity : ℕ) where
  -- A `u32` wraps.
  abbrev is_old : ℕ → Option ℕ → Bool
  is_old tip none = false
  is_old tip (some height) = not (ltb ((tip - height + 1) % u32_mod) maturity)

  unfoldable pub is_mature : CanonicalTxOut (ChainPosition A) → ℕ → Bool
  is_mature self tip =
      if self.is_on_coinbase
      then is_old tip (confirmation_height_upper_bound bound self.pos)
      else true

  abbrev is_spent_within : ℕ → Option (ChainPosition A × ℕ) → Bool
  is_spent_within tip none = false
  is_spent_within tip (some spender) = elim (confirmation_height_upper_bound bound spender.0) [
    | none ↦ false
    | some spend_height ↦ leb spend_height tip
  ]

  unfoldable pub is_confirmed_and_spendable : CanonicalTxOut (ChainPosition A) → ℕ → Bool
  is_confirmed_and_spendable self tip =
      is_mature self tip && elim (confirmation_height_upper_bound bound self.pos) [
        | none ↦ false
        | some height ↦ leb height tip && not (is_spent_within tip self.spent_by)
      ]

  -- The body of the loop, on one output.
  unfoldable pub add_txout :
      ℕ → ℕ → Bool → CanonicalTxOut (ChainPosition A) → Balance → Option Balance
  add_txout tip min_confirmations is_trusted txo b = elim txo.pos [
    | confirmed anchor transitively ↦
        if ltb (saturating_add (tip - bound anchor) 1) (max min_confirmations 1)
        then add_pending is_trusted b txo.txout.value
        else if is_confirmed_and_spendable txo tip
        then add_confirmed b txo.txout.value
        else if is_mature txo tip
        then some b
        else add_immature b txo.txout.value
    | unconfirmed first_seen last_seen ↦ add_pending is_trusted b txo.txout.value
  ]

  unfoldable pub add_txouts :
      {O : Type 0}
      → (O → CanonicalTxOut (ChainPosition A) → Bool)
      → ℕ
      → ℕ
      → List (O × CanonicalTxOut (ChainPosition A))
      → Balance
      → Option Balance
  add_txouts trust_predicate tip min_confirmations [] b = some b
  add_txouts trust_predicate tip min_confirmations ((spk_i, txo) ∷ outs) b =
      and_then (add_txout tip min_confirmations (trust_predicate spk_i txo) txo b)
        (add_txouts trust_predicate tip min_confirmations outs)

  unfoldable pub balance :
      {O : Type 0}
      → CanonicalView A
      → List (O × OutPoint)
      → (O → CanonicalTxOut (ChainPosition A) → Bool)
      → ℕ
      → Option Balance
  balance self outpoints trust_predicate min_confirmations =
      and_then (filter_unspent_outpoints self outpoints)
        (λ outs. add_txouts trust_predicate self.tip.height min_confirmations outs zero_balance)
