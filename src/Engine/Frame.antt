-- ===== src/Engine/Frame.antt =====
-- The invariants that the parts of a migration keep, for every host and every fuel.
pub mod Steps
pub mod Clone
pub mod Switch
pub mod Run
