-- ===== src/Tests.antt =====
-- Stores and codecs to run the models with, and runs of the theorems.
pub mod Memory
pub mod Frames
pub mod Stored
pub mod Served
pub mod Read
pub mod Synced
pub mod Manifests
pub mod Exported
pub mod Decided
