-- ===== src/Service.antt =====
-- internal/eds/pkg/directory/v3: the gRPC services of the directory.
pub mod Context
pub mod Relations
pub mod Writer
pub mod Reader
pub mod Access
pub mod Model
pub mod Exporter
pub mod Importer
