-- ===== src/Analyzer.antt =====
-- Parts of the analyzer: internal/migration/analyzer.go and external.go.
pub mod Files
pub mod Shared
pub mod Isolation
