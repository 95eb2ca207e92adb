-- ===== src/Authorizer.antt =====
-- The authorizer of daemon/authorizer: its AuthZEN Access API, which decides requests with the
-- loaded policies.
pub mod Request
pub mod Policy
pub mod Access
pub mod QueryCache
pub mod Identity
