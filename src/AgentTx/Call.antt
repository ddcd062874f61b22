-- ===== src/AgentTx/Call.antt =====
-- The calls of tools/agent-tx/src/main.rs: what a call invokes, how an amount is split into the two
-- halves of an `i128`, and the nonce of an authorization.
pub mod Parts
pub mod Parse
use Prim.Native.Nat.{◌%◌, ◌^◌}
use stellar_agent_guard_cont.Common.{
  ℕ, suc, ◌+◌, ◌-◌, ◌*◌, ◌/◌, ℤ, pos, negsuc, sub_ℕ, Bool, true, false, List, [], ◌∷◌, ltb,
  if◌then◌else◌,
}
use stellar_agent_guard_cont.Types.Policy.{Address, Symbol}

pub data CallKind : Type 0 where
  transfer heartbeat read_only : CallKind

pub data Call : Type 0 where
  -- token, recipient, amount
  transfer : Address → Address → ℤ → Call
  -- token, owner, recipient, amount
  transfer_from : Address → Address → Address → ℤ → Call
  heartbeat : Call

abbrev pub kind : Call → CallKind
kind (Call.transfer _ _ _) = CallKind.transfer
kind (transfer_from _ _ _ _) = CallKind.transfer
kind Call.heartbeat = CallKind.heartbeat

-- The arguments that the tool builds; the halves of an `i128` are an `i64` and a `u64`.
pub data ScVal : Type 0 where
  address : Address → ScVal
  i128 : ℤ → ℕ → ScVal

pub record InvokeContractArgs : Type 0 where
  pub contract_address : Address
  pub function_name : Symbol
  pub args : List ScVal

-- `amount as u64`
abbrev pub low_half : ℤ → ℕ
low_half (pos n) = n % 2 ^ 64
low_half (negsuc n) = 2 ^ 64 - 1 - n % 2 ^ 64

-- `(amount >> 64) as i64`
abbrev pub high_half : ℤ → ℤ
high_half (pos n) = pos (n / 2 ^ 64)
high_half (negsuc n) = negsuc (n / 2 ^ 64)

abbrev pub amount_val : ℤ → ScVal
amount_val amount = i128 (high_half amount) (low_half amount)

-- `Call::invocation`
unfoldable pub invocation : Call → Address → InvokeContractArgs
invocation (Call.transfer token to amount) guard = record {
  contract_address = token;
  function_name = "transfer";
  args = address guard ∷ address to ∷ amount_val amount ∷ [];
}
invocation (transfer_from token owner to amount) guard = record {
  contract_address = token;
  function_name = "transfer_from";
  args = address owner ∷ address guard ∷ address to ∷ amount_val amount ∷ [];
}
invocation Call.heartbeat guard = record {
  contract_address = guard;
  function_name = "heartbeat";
  args = [];
}

-- `as i64` of a `u64`
abbrev as_i64 : ℕ → ℤ
as_i64 n = if ltb n (2 ^ 63) then pos n else negsuc (2 ^ 64 - 1 - n)

-- The low half of the shifted sequence is 0, so `|` is a sum.
unfoldable pub auth_nonce : ℕ → ℕ → ℤ
auth_nonce latest_ledger entropy = as_i64 (latest_ledger * 2 ^ 32 + entropy)
