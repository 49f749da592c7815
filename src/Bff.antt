-- ===== src/Bff.antt =====
-- The backend of the account page (myaccount-bff): its sessions and the middleware that keeps their
-- tokens fresh.
pub mod Sessions
pub mod Auth
pub mod Stale
pub mod Exclusion
pub mod Mutex
pub mod Lifetime
pub mod Accounts
pub mod Pages
pub mod Login
pub mod Callback
