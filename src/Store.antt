-- ===== src/Store.antt =====
-- internal/eds/pkg/store: the storage interface of the directory service.
pub mod Page
pub mod Manifest
pub mod Tx
