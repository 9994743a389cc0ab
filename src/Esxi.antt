-- ===== src/Esxi.antt =====
-- Parts of internal/esxi that read what the host prints and that name its paths.
pub mod Paths
pub mod SnapshotTree
pub mod Quoting
pub mod Shell
pub mod Numbers
pub mod Files
pub mod Machine
pub mod Operation
pub mod OwnSnapshot
pub mod Worker
pub mod Audit
