-- ===== src/Types/Error.antt =====
-- `Error` of src/types.rs: its frozen codes, its reason symbols, and the way back from a reason.
use stellar_agent_guard_cont.Common.{ℕ, Option, List, [], ◌∷◌, find}
pub mod Roundtrip
use stellar_agent_guard_cont.Types.Policy.{Symbol, sym_eq}

pub data Error : Type 0 where
  unauthorized already_initialized not_initialized invalid_config invalid_amount : Error
  no_pending_admin admin_frozen heartbeat_expired no_policy paused outside_active_window : Error
  asset_not_allowed recipient_not_allowed per_tx_cap_exceeded window_cap_exceeded : Error
  protocol_not_allowed function_not_allowed asset_fn_not_allowed unknown_contract : Error
  self_function_not_allowed create_contract_not_allowed recipient_blocked : Error
  protocol_call_rate_exceeded decision_invariant_violation too_many_auth_contexts : Error

-- The discriminants.
abbrev pub error_code : Error → ℕ
error_code unauthorized = 1
error_code already_initialized = 2
error_code not_initialized = 3
error_code invalid_config = 4
error_code invalid_amount = 5
error_code no_pending_admin = 6
error_code admin_frozen = 10
error_code heartbeat_expired = 11
error_code no_policy = 12
error_code paused = 13
error_code outside_active_window = 14
error_code asset_not_allowed = 20
error_code recipient_not_allowed = 21
error_code per_tx_cap_exceeded = 22
error_code window_cap_exceeded = 23
error_code protocol_not_allowed = 24
error_code function_not_allowed = 25
error_code asset_fn_not_allowed = 32
error_code unknown_contract = 26
error_code self_function_not_allowed = 27
error_code create_contract_not_allowed = 28
error_code recipient_blocked = 29
error_code protocol_call_rate_exceeded = 30
error_code decision_invariant_violation = 31
error_code too_many_auth_contexts = 33

unfoldable pub reason : Error → Symbol
reason unauthorized = "unauthorized"
reason already_initialized = "already_initialized"
reason not_initialized = "not_initialized"
reason invalid_config = "invalid_config"
reason invalid_amount = "invalid_amount"
reason no_pending_admin = "no_pending_admin"
reason admin_frozen = "admin_frozen"
reason heartbeat_expired = "heartbeat_expired"
reason no_policy = "no_policy"
reason paused = "paused"
reason outside_active_window = "outside_active_window"
reason asset_not_allowed = "asset_not_allowed"
reason recipient_not_allowed = "recipient_not_allowed"
reason recipient_blocked = "recipient_blocked"
reason per_tx_cap_exceeded = "per_tx_cap_exceeded"
reason window_cap_exceeded = "window_cap_exceeded"
reason protocol_not_allowed = "protocol_not_allowed"
reason function_not_allowed = "function_not_allowed"
reason asset_fn_not_allowed = "asset_fn_not_allowed"
reason unknown_contract = "unknown_contract"
reason self_function_not_allowed = "self_function_not_allowed"
reason create_contract_not_allowed = "create_contract_not_allowed"
reason protocol_call_rate_exceeded = "protocol_call_rate_exceeded"
reason decision_invariant_violation = "decision_invariant_violation"
reason too_many_auth_contexts = "too_many_auth_contexts"

pub to_block_reason : Error → Symbol
unfolding reason
to_block_reason e = reason e

-- The array `all_errors` of `from_block_reason`.
abbrev all_errors : List Error
all_errors =
    unauthorized ∷ already_initialized ∷ not_initialized ∷ invalid_config ∷ invalid_amount
    ∷ no_pending_admin ∷ admin_frozen ∷ heartbeat_expired ∷ no_policy ∷ paused
    ∷ outside_active_window ∷ asset_not_allowed ∷ recipient_not_allowed ∷ recipient_blocked
    ∷ per_tx_cap_exceeded ∷ window_cap_exceeded ∷ protocol_not_allowed ∷ function_not_allowed
    ∷ asset_fn_not_allowed ∷ unknown_contract ∷ self_function_not_allowed
    ∷ create_contract_not_allowed ∷ protocol_call_rate_exceeded ∷ decision_invariant_violation
    ∷ too_many_auth_contexts ∷ []

pub from_block_reason : Symbol → Option Error
from_block_reason symbol = find (λ err. sym_eq symbol (reason err)) all_errors
