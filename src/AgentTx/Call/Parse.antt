-- ===== src/AgentTx/Call/Parse.antt =====
-- The contract reads from the tool's invocation the call that the tool meant.
use stellar_agent_guard_cont.Common.{
  ℕ, ℤ, in_i128, ◌≡◌, ◌∙◌, ap, Bool, true, false, map, some, arith, if◌then◌else◌,
}
use stellar_agent_guard_cont.Types.Policy.{Address, PolicyConfig, addr_eq}
use stellar_agent_guard_cont.Host.{Host, Context}
use stellar_agent_guard_cont.Engine.Caps.{contains_addr}
use stellar_agent_guard_cont.Engine.Parse.{
  ParsedCall, asset_transfer, self_call, parse_call, parse_contract_call,
}
use stellar_agent_guard_cont.AgentTx.Call.{
  Call, transfer, transfer_from, heartbeat, ScVal, address, i128, InvokeContractArgs, invocation,
  high_half, low_half,
}
use stellar_agent_guard_cont.AgentTx.Call.Parts.{joined, joined-halves}

-- How the host reads the arguments of an invocation.
pub record Wire (h : Host) : Type 1 where
  pub to_val : ScVal → h.Val
  pub address_wire : (a : Address) → h.address_of (to_val (address a)) ≡ some a
  pub i128_wire :
      (hi : ℤ) (lo : ℕ)
      → in_i128 (joined hi lo) ≡ true
      → h.i128_of (to_val (i128 hi lo)) ≡ some (joined hi lo)

-- What the policy should judge.
abbrev pub meant : Call → ParsedCall
meant (transfer token to amount) = asset_transfer token to amount
meant (transfer_from token owner to amount) = asset_transfer token to amount
meant heartbeat = self_call "heartbeat"

abbrev pub amount_in_range : Call → Bool
amount_in_range (transfer token to amount) = in_i128 amount
amount_in_range (transfer_from token owner to amount) = in_i128 amount
amount_in_range heartbeat = true

-- The token is an asset of the policy and not the guard itself.
abbrev pub token_is_asset : Call → Address → PolicyConfig → Bool
token_is_asset (transfer token to amount) guard cfg =
    if addr_eq token guard then false else contains_addr cfg.assets token
token_is_asset (transfer_from token owner to amount) guard cfg =
    if addr_eq token guard then false else contains_addr cfg.assets token
token_is_asset heartbeat guard cfg = true

module _ (h : Host) (w : Wire h) where
  open w use {to_val, address_wire, i128_wire}

  -- The context that the host hands over for an invocation.
  abbrev pub context_of : InvokeContractArgs → Context h.Val
  context_of i = Context.contract i.contract_address i.function_name (map to_val i.args)

  amount_wire :
      (z : ℤ) → in_i128 z ≡ true → h.i128_of (to_val (i128 (high_half z) (low_half z))) ≡ some z
  amount_wire z range =
      i128_wire (high_half z) (low_half z) (ap in_i128 (joined-halves z) ∙ range)
      ∙ ap some (joined-halves z)

  -- A transfer of an amount in range, of a token that is an asset of the policy and not the guard, and
  -- a heartbeat: in the invocation that the tool builds, the contract reads the token, the recipient and
  -- the amount of the transfer, and the heartbeat.
  pub parse_call-invocation :
      (call : Call) (guard : Address) (cfg : PolicyConfig)
      → amount_in_range call ≡ true
      → token_is_asset call guard cfg ≡ true
      → parse_call h guard (context_of (invocation call guard)) cfg ≡ meant call
  unfolding parse_call parse_contract_call invocation
  parse_call-invocation (transfer token to amount) guard cfg range asset =
      ground (arith, amount_wire amount range, address_wire to)
  parse_call-invocation (transfer_from token owner to amount) guard cfg range asset =
      ground (arith, amount_wire amount range, address_wire to)
  parse_call-invocation heartbeat guard cfg range asset = ground arith
