-- ===== src/AgentTx/Fees/Bounds.antt =====
-- The fees stay in 32 bits and cover the guard's keys.
use stellar_agent_guard_cont.Common.{ℕ, ◌+◌, ◌≤◌, ◌≡◌, ◌⊎◌, arith, u32_max, length}
use stellar_agent_guard_cont.AgentTx.Footprint.{guard_footprint}
use stellar_agent_guard_cont.AgentTx.Call.{CallKind, transfer, heartbeat, read_only}
use stellar_agent_guard_cont.AgentTx.Fees.{calculate_fee, fee_floor_of}

-- A fee is a `u32`. Unless it is the largest one, it pays the simulated resource fee, the inclusion fee
-- and, at the fees of the schedule, all the entries that a transaction of any kind declares for the
-- guard.
pub calculate_fee_covers :
    (resource inclusion : ℕ) (guard : ℕ) (kind : CallKind)
    → let fee = calculate_fee resource inclusion in
      let own = guard_footprint guard kind in
      (fee ≤ u32_max)
      × ((fee ≡ u32_max)
          ⊎ (resource + inclusion + fee_floor_of (length own.reads + length own.writes) ≤ fee))
unfolding calculate_fee guard_footprint
calculate_fee_covers resource inclusion guard transfer = ground arith
calculate_fee_covers resource inclusion guard heartbeat = ground arith
calculate_fee_covers resource inclusion guard read_only = ground arith
