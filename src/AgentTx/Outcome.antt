-- ===== src/AgentTx/Outcome.antt =====
-- How a run of tools/agent-tx/src/main.rs ends: failures of the RPC, the outcome of a submission, and
-- the exit codes.
pub mod Post
use stellar_agent_guard_cont.Common.{
  ℕ, Bool, true, false, ◌&&◌, Option, none, some, List, leb, ltb, if◌then◌else◌,
}
use stellar_agent_guard_cont.AgentTx.Text.{Result, ok, err}
use stellar_agent_guard_cont.AgentTx.Json.{Json, get}

pub data RpcFailureKind : Type 0 where
  timeout transport http json_rpc invalid_response : RpcFailureKind

-- The message is not modelled.
pub record RpcError : Type 0 where
  pub failure : RpcFailureKind
  pub http_status : Option ℕ
  pub json_rpc_code : Option Json

abbrev pub rpc_exit_code : RpcFailureKind → ℕ
rpc_exit_code timeout = 3
rpc_exit_code transport = 3
rpc_exit_code http = 3
rpc_exit_code json_rpc = 4
rpc_exit_code invalid_response = 4

pub data Body : Type 0 where
  stalled unreadable : Body
  body : List ℕ → Body

-- What comes back for a request: a timeout, another failure to transport it, or a status and a body; the
-- body may fail to arrive, by a timeout or otherwise.
pub data Answer : Type 0 where
  no_response broken_transport : Answer
  response : ℕ → Body → Answer

abbrev failed_with : RpcFailureKind → Option ℕ → Option Json → Result RpcError Json
failed_with failure status code =
    err (record { failure = failure; http_status = status; json_rpc_code = code })

abbrev pub is_success : ℕ → Bool
is_success status = leb 200 status && ltb status 300

abbrev result_or : ℕ → Option Json → Result RpcError Json
result_or status none = failed_with invalid_response (some status) none
result_or status (some result) = ok result

abbrev pub without_error : ℕ → Json → Option Json → Result RpcError Json
without_error status json (some error) = failed_with json_rpc (some status) (get error "code")
without_error status json none =
    if is_success status
    then result_or status (get json "result")
    else failed_with http (some status) none

abbrev pub classified : ℕ → Option Json → Result RpcError Json
classified status none = failed_with invalid_response (some status) none
classified status (some json) = without_error status json (get json "error")

-- `Rpc::post`; the parser of JSON is the library's.
unfoldable pub post : (List ℕ → Option Json) → Answer → Result RpcError Json
post parse_json no_response = failed_with timeout none none
post parse_json broken_transport = failed_with transport none none
post parse_json (response status stalled) = failed_with timeout none none
post parse_json (response status unreadable) = failed_with invalid_response (some status) none
post parse_json (response status (body text)) = classified status (parse_json text)

abbrev pub is_timeout : RpcFailureKind → Bool
is_timeout timeout = true
is_timeout _ = false

pub data RunOutcome : Type 0 where
  -- a policy block, the error's code, message and events
  simulation_blocked : Bool → Option (List ℕ) → Option (List ℕ) → Option (List Json) → RunOutcome
  simulation_success_unexpected_block : RunOutcome
  send_error empty_hash : List ℕ → RunOutcome
  -- hash and status
  transaction_success : List ℕ → List ℕ → RunOutcome
  -- hash and result
  transaction_failure : List ℕ → Option (List ℕ) → RunOutcome
  transaction_timeout : List ℕ → RunOutcome

abbrev pub exit_code : RunOutcome → Bool → ℕ
exit_code (simulation_blocked policy_block _ _ _) expect_blocked =
    if policy_block && expect_blocked then 0 else 1
exit_code (transaction_success _ _) expect_blocked = 0
exit_code (transaction_failure _ _) expect_blocked = if expect_blocked then 0 else 1
exit_code _ expect_blocked = 1
