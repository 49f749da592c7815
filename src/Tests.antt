-- ===== src/Tests.antt =====
-- The theorems of the library at concrete worlds.
mod Blobs
mod Sessions
mod Flows
mod Browsers
mod Accounts
mod Links
mod SignOut
mod Configs
mod Logins
mod Callbacks
mod Cleanups
mod Strokes
mod Histories
