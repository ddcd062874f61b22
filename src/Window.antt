-- ===== src/Window.antt =====
-- The rolling windows of src/window.rs.
pub mod Single
pub mod Protocol
pub mod Ledger
pub mod Sums
pub mod Search
pub mod Prune
pub mod Admit
pub mod Rebuild
pub mod Expiry
pub mod Calls
