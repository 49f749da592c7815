-- ===== src/Config.antt =====
-- The configurations that the services read from their environment (the config directories).
pub mod Identity
pub mod Within
pub mod Bounds
pub mod Bff
pub mod Blob
pub mod Sessions
