-- ===== src/Live/Frame.antt =====
-- The parts of a live migration keep what their calls keep (internal/migration/live.go).
pub mod Reads
pub mod Merge
pub mod Run
