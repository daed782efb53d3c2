-- ===== src/Mweb.antt =====
-- The crate `crates/mweb`.
pub mod Leafset
pub mod Pmmr
pub mod CoinDb
pub mod Sync
