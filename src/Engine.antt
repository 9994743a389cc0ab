-- ===== src/Engine.antt =====
-- internal/migration/engine.go: a cold migration, its commit and its rollback.
pub mod Frame
pub mod Steps
pub mod Shutdown
pub mod Clone
pub mod Commit
pub mod Start
pub mod Rollback
pub mod Run
pub mod Copy
pub mod Fresh
pub mod Power
pub mod Registry
pub mod Switch
pub mod Refusals
pub mod Quiet
pub mod Guard
