-- ===== src/Contract/Operations.antt =====
-- The entry points that leave the budget alone: none of them writes the window, its width or its cap.
use stellar_agent_guard_cont.Common.{ℕ, ℤ, ◌≡◌, Option, none, some, arith}
use stellar_agent_guard_cont.Types.Policy.{Address, PolicyConfig}
use stellar_agent_guard_cont.Host.{Host}
use stellar_agent_guard_cont.Contract.Storage.{Storage, Env, Call, done}
use stellar_agent_guard_cont.Contract.Admin.{
  initialize, pause, resume, rotate_agent_key, propose_admin_rotation, confirm_admin_rotation,
  cancel_admin_rotation,
}
use stellar_agent_guard_cont.Contract.Liveness.{heartbeat, freeze, unfreeze, refresh_deadman}

-- Every entry point that changes the storage but `set_policy`, `reset_window`, `revoke_policy` and
-- `__check_auth`.
pub data Operation : Type 0 where
  op_initialize : Address → ℕ → Operation
  op_pause op_resume op_freeze op_unfreeze op_heartbeat op_refresh_deadman : Operation
  op_confirm_admin_rotation op_cancel_admin_rotation : Operation
  op_rotate_agent_key : ℕ → Operation
  op_propose_admin_rotation : Address → Operation

-- The width and the cap of the installed policy's window.
abbrev pub terms : Option PolicyConfig → Option (ℕ × ℤ)
terms none = none
terms (some cfg) = some (cfg.window_secs, cfg.window_cap)

abbrev pub KeepsBudget : Storage → Storage → Type 0
KeepsBudget s s' = (s'.window ≡ s.window) × (terms s'.policy ≡ terms s.policy)

module _ (h : Host) where
  unfoldable pub run : Operation → Call (Unit {0})
  run (op_initialize admin key) = initialize admin key
  run op_pause = pause
  run op_resume = resume
  run op_freeze = freeze
  run op_unfreeze = unfreeze
  run op_heartbeat = heartbeat
  run op_refresh_deadman = refresh_deadman
  run op_confirm_admin_rotation = confirm_admin_rotation
  run op_cancel_admin_rotation = cancel_admin_rotation
  run (op_rotate_agent_key key) = rotate_agent_key h key
  run (op_propose_admin_rotation a) = propose_admin_rotation a

  -- Whichever of these entry points succeeds, and whoever calls it, the stored window and the width and
  -- the cap of the window are as before.
  pub run-KeepsBudget :
      (op : Operation) (env : Env) (s s' : Storage) → run op env s ≡ done tt s' → KeepsBudget s s'
  unfolding run initialize pause resume freeze unfreeze heartbeat refresh_deadman
      confirm_admin_rotation cancel_admin_rotation rotate_agent_key propose_admin_rotation
  run-KeepsBudget (op_initialize admin key) env s s' r = ground arith
  run-KeepsBudget op_pause env s s' r = ground arith
  run-KeepsBudget op_resume env s s' r = ground arith
  run-KeepsBudget op_freeze env s s' r = ground arith
  run-KeepsBudget op_unfreeze env s s' r = ground arith
  run-KeepsBudget op_heartbeat env s s' r = ground arith
  run-KeepsBudget op_refresh_deadman env s s' r = ground arith
  run-KeepsBudget op_confirm_admin_rotation env s s' r = ground arith
  run-KeepsBudget op_cancel_admin_rotation env s s' r = ground arith
  run-KeepsBudget (op_rotate_agent_key key) env s s' r = ground arith
  run-KeepsBudget (op_propose_admin_rotation a) env s s' r = ground arith
