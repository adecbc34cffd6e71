-- ===== src/Sync.antt =====
-- src/core/sync: what one entry of a job owes to the cloud.
pub mod Dirty
mod Examples
