-- ===== src/Oidc.antt =====
-- OpenID Connect in the identity service: authorization requests, clients, tokens and device sessions
-- (internal/oidc, internal/oidc/postgres).
pub mod Domain
pub mod Tables
pub mod TokenRepo
pub mod AuthRepo
pub mod Services
pub mod Adapter
pub mod Claims
pub mod ClientAdapter
pub mod Grants
pub mod CodeFlow
pub mod Challenge
pub mod TokenFlow
pub mod Scopes
pub mod DeviceRepo
pub mod Rotation
pub mod Revocation
pub mod Reuse
pub mod Reissue
pub mod Liveness
pub mod Cleanup
pub mod Spared
pub mod Schema
pub mod References
pub mod Calls
pub mod Integrity
