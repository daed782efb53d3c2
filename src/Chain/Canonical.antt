-- ===== src/Chain/Canonical.antt =====
-- `crates/chain/src/canonical_task.rs`: which transactions of a graph are canonical.
pub mod Reason
pub mod View
pub mod Descend
pub mod Mark
pub mod Task
pub mod ViewTask
mod Tests
