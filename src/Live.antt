-- ===== src/Live.antt =====
-- internal/migration/live.go: a migration that keeps the machine running.
pub mod Space
pub mod Deltas
pub mod Checks
pub mod Metadata
pub mod Merge
pub mod Run
pub mod Frame
pub mod Power
pub mod Quiet
pub mod Outcome
