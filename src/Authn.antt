-- ===== src/Authn.antt =====
-- Logging in at an identity provider (internal/authn of the identity service).
pub mod Device
pub mod Cipher
pub mod Providers
pub mod Handler
pub mod Login
pub mod Sealing
pub mod Emails
