-- ===== src/Contract/Liveness.antt =====
-- The dead-man switch and the freeze: heartbeats, freezing, and the record of an expiry.
use stellar_agent_guard_cont.Common.{
  ℕ, true, false, not, Option, none, some, u64_add, ◌==◌, if◌then◌else◌, get_or_else,
}
use stellar_agent_guard_cont.Types.Policy.{PolicyConfig}
use stellar_agent_guard_cont.Engine.Decide.{grace_elapsed}
use stellar_agent_guard_cont.Contract.Storage.{
  Storage, Call, heartbeat_seen, dms_auto_frozen, frozen_by, unfrozen_by, gets, timestamp,
  current_contract_address, modify, require_auth, publish, when, ◌>>=◌, ◌>>◌, heartbeat_at,
}
use stellar_agent_guard_cont.Contract.Admin.{admin_or_panic}

abbrev grace_of : Option PolicyConfig → ℕ
grace_of none = 0
grace_of (some cfg) = cfg.dms_grace_secs

abbrev pub grace : Storage → ℕ
grace s = grace_of s.policy

-- A second heartbeat in one second changes nothing.
unfoldable pub heartbeat : Call (Unit {0})
heartbeat = do
  self_addr ← current_contract_address
  require_auth self_addr
  now ← timestamp
  last ← gets heartbeat_at
  when (not (now == last)) (do
    modify (λ s. record s { last_heartbeat = some now })
    g ← gets grace
    publish (heartbeat_seen now (if g == 0 then 0 else u64_add now g)))

unfoldable pub freeze : Call (Unit {0})
unfolding admin_or_panic
freeze = do
  admin ← admin_or_panic
  modify (λ s. record s { admin_frozen = some true })
  publish (frozen_by admin)

unfoldable pub refresh_deadman : Call (Unit {0})
refresh_deadman = do
  now ← timestamp
  g ← gets grace
  last ← gets heartbeat_at
  when (grace_elapsed g last now) (do
    recorded ← gets (λ s. get_or_else s.auto_frozen_at 0)
    when (recorded == 0)
        (do modify (λ s. record s { auto_frozen_at = some now }); publish (dms_auto_frozen now)))

unfoldable pub unfreeze : Call (Unit {0})
unfolding admin_or_panic
unfreeze = do
  admin ← admin_or_panic
  modify (λ s. record s { admin_frozen = some false })
  now ← timestamp
  last ← gets heartbeat_at
  modify (λ s. record s { last_heartbeat = some now })
  publish (unfrozen_by admin (not (last == now)))
