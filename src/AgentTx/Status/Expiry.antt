-- ===== src/AgentTx/Status/Expiry.antt =====
-- The expiry that `cmd_status` of tools/agent-tx/src/main.rs prints, beside that of the contract.
use stellar_agent_guard_cont.AgentTx.Json.{Json}
