-- ===== src/Auth.antt =====
-- internal/auth/auth.go.
pub mod Tables
pub mod Rows
pub mod Users
pub mod Login
pub mod Tokens
pub mod Requests
pub mod Revoked
pub mod Lockout
pub mod Renamed
pub mod Sound
pub mod Shut
pub mod Grants
mod Samples
