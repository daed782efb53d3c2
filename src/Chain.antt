-- ===== src/Chain.antt =====
-- The crate `crates/chain`.
pub mod ChangeSet
pub mod LocalChain
pub mod ChainPosition
pub mod SpkIter
pub mod SpkTxOut
pub mod Balance
pub mod Tx
pub mod TxGraph
pub mod Canonical
