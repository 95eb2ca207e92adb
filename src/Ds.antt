-- ===== src/Ds.antt =====
-- internal/eds/pkg/ds: the operations behind the directory's services.
pub mod Relation
pub mod Metadata
pub mod Object
pub mod Manifest
pub mod Check
pub mod Stats
