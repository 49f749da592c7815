-- ===== src/Identity.antt =====
-- Users of the identity service and their federated identities (internal/identity).
pub mod Users
pub mod Service
pub mod Providers
pub mod Unlink
pub mod Logins
