-- ===== src/Core.antt =====
-- The crate `crates/core`.
pub mod BlockId
pub mod Merge
pub mod Checkpoint
pub mod Entry
mod Tests
pub mod ChainQuery
