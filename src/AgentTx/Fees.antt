-- ===== src/AgentTx/Fees.antt =====
-- The fees of tools/agent-tx/src/main.rs: the allowance for the guard's keys, the inclusion fee and the
-- total.
pub mod Bounds
use Prim.Native.Nat.{◌^◌, min}
use Prim.Native.String.{String}
use stellar_agent_guard_cont.Common.{
  ℕ, suc, ℤ, pos, negsuc, sub_ℕ, ◌+◌, ◌-◌, ◌*◌, ◌/◌, Option, none, some, List, [], ◌∷◌, length,
  u32_max,
}
use stellar_agent_guard_cont.AgentTx.Text.{Result, ok, err}
use stellar_agent_guard_cont.AgentTx.Json.{
  Json, at_key, as_str, as_u64, first_some, parse_unsigned, below,
}
use stellar_agent_guard_cont.AgentTx.Footprint.{check_auth_reads}

abbrev pub inclusion_fee_fallback : ℕ
inclusion_fee_fallback = 100

abbrev pub guard_footprint_keys : ℕ
guard_footprint_keys = length check_auth_reads + 1

abbrev pub fee_write_ledger_entry : ℕ
fee_write_ledger_entry = 2500

abbrev pub fee_tx_size_1kb : ℕ
fee_tx_size_1kb = 406

abbrev pub fee_historical_1kb : ℕ
fee_historical_1kb = 4059

abbrev pub fee_per_10k_instructions : ℕ
fee_per_10k_instructions = 7

abbrev pub guard_key_xdr_bytes_max : ℕ
guard_key_xdr_bytes_max = 128

abbrev pub check_auth_instruction_headroom : ℕ
check_auth_instruction_headroom = 10_000_000

-- The cost of `keys` more entries.
abbrev pub fee_floor_of : ℕ → ℕ
fee_floor_of keys =
    let write_entries = keys * fee_write_ledger_entry in
    let key_bytes = keys * guard_key_xdr_bytes_max in
    let envelope = (key_bytes * (fee_tx_size_1kb + fee_historical_1kb) + 1023) / 1024 in
    let instructions = check_auth_instruction_headroom * fee_per_10k_instructions / 10_000 in
    write_entries + envelope + instructions

abbrev pub guard_key_fee_floor : ℕ
guard_key_fee_floor = fee_floor_of guard_footprint_keys

abbrev pub guard_key_fee_bump : ℕ
guard_key_fee_bump = 100_000

-- `u32::saturating_add`
abbrev pub u32_saturating_add : ℕ → ℕ → ℕ
u32_saturating_add a b = min (a + b) u32_max

unfoldable pub calculate_fee : ℕ → ℕ → ℕ
calculate_fee min_resource_fee inclusion_fee =
    u32_saturating_add (u32_saturating_add min_resource_fee inclusion_fee) guard_key_fee_bump

-- `data.resource_fee.saturating_add(GUARD_KEY_FEE_BUMP)` of an `i64`
abbrev pub bump_resource_fee : ℤ → ℤ
bump_resource_fee (pos fee) = pos (min (fee + guard_key_fee_bump) (2 ^ 63 - 1))
bump_resource_fee (negsuc fee) = sub_ℕ guard_key_fee_bump (suc fee)

abbrev fee_at : Json → String → Option ℕ
fee_at stats name =
    let value = at_key (at_key stats "inclusionFee") name in
    first_some (parsed_text (as_str value)) (below (u32_max + 1) (as_u64 value))
  where
    parsed_text : Option (List ℕ) → Option ℕ
    parsed_text none = none
    parsed_text (some fee) = parse_unsigned (u32_max + 1) fee

unfoldable pub parse_inclusion_fee : Json → Option ℕ
parse_inclusion_fee stats =
    first_some (fee_at stats "mode") (first_some (fee_at stats "p50") (fee_at stats "min"))

-- The fee and where it comes from. `asked` is the answer of `getFeeStats`.
abbrev pub resolve_inclusion_fee : {E : Type 0} → Option ℕ → Result E (Option ℕ) → ℕ × String
resolve_inclusion_fee (some fee) asked = (fee, "explicit --inclusion-fee override")
resolve_inclusion_fee none (ok (some fee)) = (fee, "RPC getFeeStats inclusionFee.mode")
resolve_inclusion_fee none _ =
    (inclusion_fee_fallback, "fallback constant (fee statistics unavailable)")
