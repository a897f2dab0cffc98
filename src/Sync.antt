-- ===== src/Sync.antt =====
-- src/sync: which accounts may synchronise, and the records that they exchange.
pub mod Policy
pub mod Records
pub mod Pull
pub mod Push
mod Tests
