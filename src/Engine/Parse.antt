-- ===== src/Engine/Parse.antt =====
-- `parse_call` of src/engine.rs: one authorization context as the call that the policy judges.
use stellar_agent_guard_cont.Common.{
  ℕ, ℤ, ◌&&◌, ◌||◌, Option, some, List, length, get_elem?, any, ◌==◌, if◌then◌else◌,
}
use stellar_agent_guard_cont.Types.Policy.{
  Address, Symbol, addr_eq, sym_eq, PolicyConfig, ProtocolRule,
}
use stellar_agent_guard_cont.Host.{
  Host, Context, create_contract_host_fn, create_contract_with_ctor_host_fn,
}
use stellar_agent_guard_cont.Engine.Caps.{contains_addr}

pub data ParsedCall : Type 0 where
  -- asset, destination, amount
  asset_transfer : Address → Address → ℤ → ParsedCall
  asset_other : Address → Symbol → ParsedCall
  protocol : Address → Symbol → ParsedCall
  self_call : Symbol → ParsedCall
  create_contract : ParsedCall
  unknown : Address → Symbol → ParsedCall

abbrev pub transfer_symbol : Symbol
transfer_symbol = "transfer"

abbrev pub transfer_from_symbol : Symbol
transfer_from_symbol = "transfer_from"

module _ (h : Host) where
  open h use {Val, address_of, i128_of}

  abbrev converted : Address → Symbol → Option Address → Option ℤ → ParsedCall
  converted asset fname (some to) (some amount) = asset_transfer asset to amount
  converted asset fname _ _ = unknown asset fname

  -- The destination and the amount, if both arguments are there and convert.
  abbrev transfer_args : Address → Symbol → Option Val → Option Val → ParsedCall
  transfer_args asset fname (some to_val) (some amt_val) =
      converted asset fname (address_of to_val) (i128_of amt_val)
  transfer_args asset fname _ _ = unknown asset fname

  unfoldable pub parse_contract_call :
      Address → Address → Symbol → List Val → PolicyConfig → ParsedCall
  parse_contract_call self_addr contract fn_name args cfg =
      let is_asset = contains_addr cfg.assets contract in
      let is_protocol = any (λ (r : ProtocolRule). addr_eq r.contract contract) cfg.protocols in
      let is_transfer = sym_eq fn_name transfer_symbol in
      let to_idx : ℕ = (if is_transfer then 1 else 2) in
      let amt_idx : ℕ = (if is_transfer then 2 else 3) in
      let expected_arity : ℕ = (if is_transfer then 3 else 4) in
      if addr_eq contract self_addr
      then self_call fn_name
      else if is_asset && (is_transfer || sym_eq fn_name transfer_from_symbol)
      then (if length args == expected_arity
          then transfer_args contract fn_name (get_elem? args to_idx) (get_elem? args amt_idx)
          else unknown contract fn_name)
      else if is_asset
      then asset_other contract fn_name
      else if is_protocol
      then protocol contract fn_name
      else unknown contract fn_name

  unfoldable pub parse_call : Address → Context Val → PolicyConfig → ParsedCall
  unfolding parse_contract_call
  parse_call self_addr (Context.contract c fn_name args) cfg =
      parse_contract_call self_addr c fn_name args cfg
  parse_call self_addr create_contract_host_fn cfg = create_contract
  parse_call self_addr create_contract_with_ctor_host_fn cfg = create_contract
