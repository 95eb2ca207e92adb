-- ===== src/Edge.antt =====
-- daemon/authorizer/plugins/edge: when the directory is synced, and how.
pub mod Task
pub mod Scheduler
