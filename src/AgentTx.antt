-- ===== src/AgentTx.antt =====
-- The command line tool under tools/agent-tx: keys, networks, footprints, fees, reports, the submission
-- of calls, the registry of guards, and the flags.
pub mod Base32
pub mod Strkey
pub mod Text
pub mod Network
pub mod Call
pub mod Footprint
pub mod Json
pub mod Fees
pub mod Outcome
pub mod Report
pub mod Envelope
pub mod Run
pub mod Registry
pub mod Flags
pub mod Request
pub mod Main
pub mod Status
