-- ===== src/Bdb.antt =====
-- internal/eds/pkg/bdb: the BoltDB implementation of the directory's store.
pub mod Bucket
pub mod Keys
pub mod Scan
pub mod Objects
pub mod Relations
pub mod Manifest
pub mod Implements
