-- ===== src/Findings.antt =====
-- internal/findings/findings.go.
pub mod Merge
pub mod Lists
pub mod Store
pub mod Detect
pub mod Calls
pub mod Sound
pub mod Counts
mod Samples
