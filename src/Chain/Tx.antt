-- ===== src/Chain/Tx.antt =====
-- What the program reads of the transactions of the library: a transaction's id is its hash.
use bdk.Prelude.{ℕ, Bool, List, ◌&&◌, ◌==◌}

pub record OutPoint : Type 0 where
  pub txid : ℕ
  pub vout : ℕ

abbrev pub outpoint_eq : OutPoint → OutPoint → Bool
outpoint_eq a b = a.txid == b.txid && a.vout == b.vout

-- A witness by whether it is empty, its size, and its place in the order of witnesses.
pub record Witness : Type 0 where
  pub is_empty : Bool
  pub size : ℕ
  pub rank : ℕ

-- `is_null` is `previous_output.is_null()`.
pub record TxIn : Type 0 where
  pub previous_output : OutPoint
  pub is_null : Bool
  pub witness : Witness

pub record TxOut : Type 0 where
  pub value : ℕ
  pub script_pubkey : ℕ

-- `is_coinbase` is `Transaction::is_coinbase`, `txid` is `Transaction::compute_txid`.
pub record Transaction : Type 0 where
  pub txid : ℕ
  pub is_coinbase : Bool
  pub input : List TxIn
  pub output : List TxOut
