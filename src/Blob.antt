-- ===== src/Blob.antt =====
-- The blob service (server/services/blob-service).
pub mod Domain
pub mod Storage
pub mod Repo
pub mod App
pub mod Server
pub mod Requests
pub mod Rows
pub mod Uploads
pub mod Answers
pub mod Interceptor
pub mod Ledger
