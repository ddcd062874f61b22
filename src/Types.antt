-- ===== src/Types.antt =====
-- The shared types of src/types.rs.
pub mod Policy
pub mod Error
pub mod Ledger
