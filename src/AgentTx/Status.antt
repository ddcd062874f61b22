-- ===== src/AgentTx/Status.antt =====
-- `cmd_status` of tools/agent-tx/src/main.rs: the guard's state as the ledger entries have it.
pub mod Expiry
use Prim.Native.String.{String}
use Prim.Native.Nat.{◌%◌, ◌^◌}
use stellar_agent_guard_cont.Common.{
  ℕ, ◌-◌, Bool, true, false, not, ◌&&◌, Option, none, some, List, [], ◌∷◌, ltb, ◌==◌, if◌then◌else◌,
  get_or_else,
}
use stellar_agent_guard_cont.Types.Policy.{Address}
use stellar_agent_guard_cont.AgentTx.Text.{Result, ok, err, ◌>>=◌, or_err, codes, text_eq}
use stellar_agent_guard_cont.AgentTx.Json.{Json, at_key, as_str, as_array}
use stellar_agent_guard_cont.AgentTx.Footprint.{
  GuardKey, StorageVal, LedgerKey, val_eq, scval, guard_data_key, guard_instance_key,
}
use stellar_agent_guard_cont.AgentTx.Request.{map_error}
use stellar_agent_guard_cont.Contract.Scval.{
  ScVal, void, u64, symbol, map_of, ScMapEntry, entries_of,
}

-- A decoded ledger entry; those that are no contract data are numbered.
pub data LedgerEntryData : Type 0 where
  contract_entry : StorageVal → ScVal → LedgerEntryData
  other_entry : ℕ → LedgerEntryData

-- `undecodable` is a panic; `rpc_ends` an exit code of the RPC or a panic.
pub data StatusError : Type 0 where
  no_entries missing_xdr undecodable : StatusError
  rpc_ends : Option ℕ → StatusError

-- What is printed.
pub record StatusReport : Type 0 where
  pub has_policy : Bool
  pub frozen : Bool
  pub expired_heartbeat : Bool
  pub heartbeat_time : ℕ
  pub now : ℕ

-- The variables of the first loop.
pub record Seen : Type 0 where
  pub policy_seen : Bool
  pub frozen_seen : Bool
  pub heartbeat_seen : ℕ

abbrev nothing_seen : Seen
nothing_seen = record { policy_seen = false; frozen_seen = false; heartbeat_seen = 0 }

abbrev is_void : ScVal → Bool
is_void void = true
is_void _ = false

abbrev set_frozen : ScVal → Seen → Seen
set_frozen (ScVal.bool b) s = record s { frozen_seen = b }
set_frozen _ s = s

abbrev set_heartbeat : ScVal → Seen → Seen
set_heartbeat (u64 ts) s = record s { heartbeat_seen = ts }
set_heartbeat _ s = s

abbrev note : LedgerEntryData → Seen → Seen
note (other_entry n) s = s
note (contract_entry key val) s =
    if val_eq key (scval GuardKey.policy)
    then record s { policy_seen = not (is_void val) }
    else if val_eq key (scval GuardKey.admin_frozen)
    then set_frozen val s
    else if val_eq key (scval GuardKey.last_heartbeat)
    then set_heartbeat val s
    else s

abbrev named_u64 : String → ScVal → ScVal → Option ℕ
named_u64 field (symbol bytes) (u64 n) = if text_eq bytes (codes field) then some n else none
named_u64 field _ _ = none

abbrev extract_u64_from_map : String → List ScMapEntry → Option ℕ
extract_u64_from_map field [] = none
extract_u64_from_map field (e ∷ es) = elim (named_u64 field e.key e.val) [
  | some n ↦ some n
  | none ↦ extract_u64_from_map field es
]

abbrev pub extract_dms_grace_secs : ScVal → ℕ
extract_dms_grace_secs (map_of m) =
    get_or_else (extract_u64_from_map "dms_grace_secs" (entries_of m)) 0
extract_dms_grace_secs _ = 0

-- `now` is a `u32`, and the heartbeat's time is cut to one.
unfoldable pub heartbeat_expired : ℕ → ℕ → ℕ → Bool
heartbeat_expired ledger last_heartbeat grace =
    if ltb 0 grace
    then (if last_heartbeat == 0 then true else ltb grace (ledger - last_heartbeat % 2 ^ 32))
    else false

abbrev policy_grace : LedgerEntryData → Result StatusError ℕ → Result StatusError ℕ
policy_grace (other_entry n) rest = rest
policy_grace (contract_entry key val) rest =
    if val_eq key (scval GuardKey.policy) then ok (extract_dms_grace_secs val) else rest

abbrev status_keys : Address → List LedgerKey
status_keys guard =
    guard_instance_key guard
    ∷ guard_data_key guard GuardKey.policy
    ∷ guard_data_key guard GuardKey.last_heartbeat
    ∷ guard_data_key guard GuardKey.admin_frozen
    ∷ []

abbrev printed : Seen → ℕ → ℕ → StatusReport
printed seen ledger grace = record {
  has_policy = seen.policy_seen;
  frozen = seen.frozen_seen;
  expired_heartbeat = heartbeat_expired ledger seen.heartbeat_seen grace;
  heartbeat_time = seen.heartbeat_seen;
  now = ledger;
}

-- The XDR decoder, and the answers of the RPC.
module _ (decode : List ℕ → Option LedgerEntryData)
    (ledger_entries : List LedgerKey → Result (Option ℕ) Json)
    (latest_ledger : Result (Option ℕ) ℕ) where
  abbrev entry_of : Json → Result StatusError LedgerEntryData
  entry_of entry = or_err (as_str (at_key entry "xdr")) missing_xdr >>= λ encoded.
      or_err (decode encoded) undecodable

  -- The first loop.
  abbrev scan : List Json → Seen → Result StatusError Seen
  scan [] s = ok s
  scan (entry ∷ entries) s = entry_of entry >>= λ e. scan entries (note e s)

  -- The second loop, up to the first entry of the policy.
  abbrev stored_grace : List Json → Result StatusError ℕ
  stored_grace [] = ok 0
  stored_grace (entry ∷ entries) =
      let rest = stored_grace entries in entry_of entry >>= λ e. policy_grace e rest

  unfoldable pub cmd_status : Address → Result StatusError StatusReport
  unfolding heartbeat_expired
  cmd_status guard = map_error rpc_ends (ledger_entries (status_keys guard)) >>= λ res.
      or_err (as_array (at_key res "entries")) no_entries >>= λ entries.
      scan entries nothing_seen >>= λ seen. map_error rpc_ends latest_ledger >>= λ ledger.
      (if seen.policy_seen then stored_grace entries else ok 0) >>= λ grace.
      ok (printed seen ledger grace)
