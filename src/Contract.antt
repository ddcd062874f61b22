-- ===== src/Contract.antt =====
-- The contract of src/lib.rs: its storage, its entry points, and the custom-account check.
pub mod Storage
pub mod Validate
pub mod Admin
pub mod Liveness
pub mod Snapshot
pub mod CheckAuth
pub mod Reads
pub mod Reload
pub mod Operations
pub mod Granted
pub mod History
pub mod Install
pub mod Entries
pub mod Preflight
pub mod Unsaved
pub mod Scval
