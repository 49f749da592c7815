-- ===== src/Account.antt =====
-- The account management service over gRPC (internal/grpc of the identity service).
pub mod Handler
pub mod Ending
pub mod SignOut
pub mod Interceptor
pub mod Admission
pub mod Unlinking
pub mod Remote
