-- ===== src/Engine.antt =====
-- The decision engine of src/engine.rs.
pub mod Caps
pub mod Parse
pub mod Evaluate
pub mod Decide
pub mod Spends
pub mod Commit
pub mod Requested
pub mod Ceiling
pub mod Permit
pub mod Gates
pub mod Recovery
pub mod CallRate
