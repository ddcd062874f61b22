-- ===== src/Scenarios/Status.antt =====
-- A status whose heartbeat expired long ago.
use stellar_agent_guard_cont.Common.{ℕ, true, false, Option, none, some, List, if◌then◌else◌}
use stellar_agent_guard_cont.AgentTx.Text.{codes, text_eq}
use stellar_agent_guard_cont.AgentTx.Json.{
  Json, text, array, object, item, none_left, field, no_fields,
}
use stellar_agent_guard_cont.AgentTx.Footprint.{GuardKey, scval}
use stellar_agent_guard_cont.AgentTx.Status.{LedgerEntryData, contract_entry, StatusReport}
use stellar_agent_guard_cont.Contract.Scval.{ScVal, symbol, map_of, entry, no_entries}

-- The encodings are one character long: `p` is a policy with a grace time of 1000 seconds, `h` a
-- heartbeat at the time 1,700,000,000.
abbrev decode_entry : List ℕ → Option LedgerEntryData
decode_entry encoded =
    if text_eq encoded (codes "p")
    then some (
        contract_entry (scval GuardKey.policy)
          (map_of (entry (symbol (codes "dms_grace_secs")) (ScVal.u64 1000) no_entries)))
    else if text_eq encoded (codes "h")
    then some (contract_entry (scval GuardKey.last_heartbeat) (ScVal.u64 1_700_000_000))
    else none

abbrev encoded_entry : List ℕ → Json
encoded_entry bytes = object (field "xdr" (text bytes) no_fields)

abbrev two_entries : Json
two_entries = object (
    field "entries"
      (array (item (encoded_entry (codes "p")) (item (encoded_entry (codes "h")) none_left)))
      no_fields)

-- The ledger's sequence number is far below the time.
abbrev blind_status : StatusReport
blind_status = record {
  has_policy = true;
  frozen = false;
  expired_heartbeat = false;
  heartbeat_time = 1_700_000_000;
  now = 60_000_000;
}
