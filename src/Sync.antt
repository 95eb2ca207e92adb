-- ===== src/Sync.antt =====
-- internal/eds/pkg/datasync: a sync of the directory from a remote one.
pub mod Watermark
pub mod Filter
pub mod Handlers
pub mod Directory
pub mod Taken
pub mod Diff
pub mod Pipeline
pub mod Run
pub mod Manifest
