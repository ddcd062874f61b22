-- ===== src/Scenarios/Calls.antt =====
-- Calls of the contract on a small storage.
use stellar_agent_guard_cont.Common.{
  ℕ, ◌+◌, ◌≤◌, pos, ◌≡◌, refl, inl, ◌↔◌, true, Option, none, some, List, [], ◌∷◌, ◌++◌, arith,
  subst, ◌==◌, checked_add, ◌+ℤ◌, saturating_add,
}
use stellar_agent_guard_cont.Types.Policy.{PolicyConfig}
use stellar_agent_guard_cont.Types.Error.{Error}
use stellar_agent_guard_cont.Window.Ledger.{empty, prune, admit, admit_protocol_call}
use stellar_agent_guard_cont.Window.Single.{prune_entries, admit_to_ledger}
use stellar_agent_guard_cont.Window.Protocol.{
  prune_protocol_call_entries, admit_to_protocol_call_ledger,
}
use stellar_agent_guard_cont.Engine.Caps.{
  contains_addr, recipient_override_cap, effective_per_tx_cap, checked_window_projection,
}
use stellar_agent_guard_cont.Engine.Parse.{parse_call}
use stellar_agent_guard_cont.Engine.Evaluate.{asset_paused, evaluate}
use stellar_agent_guard_cont.Engine.Decide.{account_error, decide}
use stellar_agent_guard_cont.Contract.Snapshot.{emit_verdicts, emit_window_merges}
use mathlib.Core.Option.{some-injective}
use stellar_agent_guard_cont.Window.Admit.{live_sum}
use stellar_agent_guard_cont.Engine.Requested.{requested}
use stellar_agent_guard_cont.Contract.Storage.{Storage, Event, Outcome, done, panicked, trapped}
use stellar_agent_guard_cont.Contract.Admin.{set_policy, set_paused}
use stellar_agent_guard_cont.Contract.CheckAuth.{authorize, persist, saves_window, check_auth}
use stellar_agent_guard_cont.Contract.CheckAuth.Inversion.{
  Passed, check_auth-Passed, check_auth_refused,
}
use stellar_agent_guard_cont.Contract.Install.{
  IsInstalled, Consents, with_paused, set_policy_iff, set_paused_iff,
}
use stellar_agent_guard_cont.Contract.Operations.{
  op_refresh_deadman, op_freeze, run, KeepsBudget, run-KeepsBudget,
}
use stellar_agent_guard_cont.Contract.Liveness.{freeze}
use stellar_agent_guard_cont.Contract.Entries.{operation, entry_revoke_policy, run_entry}
use stellar_agent_guard_cont.Contract.History.{authorized, start, next, hard_ceiling}
use stellar_agent_guard_cont.Contract.Reads.{
  BatchTransfer, BatchCheckResult, batch_contexts, check_batch,
}
use stellar_agent_guard_cont.Contract.Preflight.{check_batch-check_auth}
use stellar_agent_guard_cont.Contract.Unsaved.{NoTransfers, check_auth_times, calls_unlimited}
use stellar_agent_guard_cont.Scenarios.{small_host, small_policy, small_storage, env_at, pay, ping}

-- The storage that a call leaves.
abbrev pub left_by : {A : Type 0} → Outcome A → Storage
left_by (done a s) = s
left_by (panicked e) = small_storage
left_by trapped = small_storage

abbrev pub paid : Outcome (Option Error)
paid = check_auth small_host 2 7 (pay (pos 40) ∷ []) (env_at 20) small_storage

pub pay_passes : paid ≡ done none (left_by paid)
unfolding check_auth authorize emit_verdicts decide account_error evaluate parse_call contains_addr
    asset_paused effective_per_tx_cap checked_window_projection checked_add ◌+ℤ◌ prune prune_entries
    empty recipient_override_cap persist emit_window_merges admit admit_to_ledger saturating_add
    prune_protocol_call_entries saves_window admit_protocol_call admit_to_protocol_call_ledger
pay_passes = refl

abbrev overpaid : Outcome (Option Error)
overpaid = check_auth small_host 2 7 (pay (pos 70) ∷ []) (env_at 20) small_storage

pay_fails : overpaid ≡ done (some Error.per_tx_cap_exceeded) (left_by overpaid)
unfolding check_auth authorize emit_verdicts decide account_error evaluate parse_call contains_addr
    asset_paused effective_per_tx_cap checked_window_projection checked_add ◌+ℤ◌ prune prune_entries
    empty recipient_override_cap persist emit_window_merges admit admit_to_ledger saturating_add
    prune_protocol_call_entries saves_window admit_protocol_call admit_to_protocol_call_ledger
pay_fails = refl

abbrev pinged : Outcome (Option Error)
pinged = check_auth small_host 2 7 (ping ∷ []) (env_at 20) small_storage

ping_passes : pinged ≡ done none (left_by pinged)
unfolding check_auth authorize emit_verdicts decide account_error evaluate parse_call contains_addr
    asset_paused effective_per_tx_cap checked_window_projection checked_add ◌+ℤ◌ prune prune_entries
    empty recipient_override_cap persist emit_window_merges admit admit_to_ledger saturating_add
    prune_protocol_call_entries saves_window admit_protocol_call admit_to_protocol_call_ledger
ping_passes = refl

check_auth-Passed_example :
    (agent : ℕ) × (some 5 ≡ some agent)
    × ((7 == agent + 2) ≡ true)
    × Passed small_host (pay (pos 40) ∷ []) (env_at 20) small_storage (left_by paid)
check_auth-Passed_example =
    check_auth-Passed small_host (pay (pos 40) ∷ []) (env_at 20) small_storage (left_by paid) 2 7
      pay_passes

check_auth_refused_example :
    (events : List Event) × (left_by overpaid ≡ record small_storage { events = events })
check_auth_refused_example =
    check_auth_refused small_host (pay (pos 70) ∷ []) (env_at 20) small_storage (left_by overpaid)
      Error.per_tx_cap_exceeded 2 7 pay_fails

hard_ceiling_example :
    live_sum 30 50 ([] ++ requested small_host 4 small_policy 20 (pay (pos 40) ∷ [])) ≤ 100
hard_ceiling_example =
    hard_ceiling small_host 50 (pos 100) 20 30
      ([] ++ requested small_host 4 small_policy 20 (pay (pos 40) ∷ [])) (left_by paid) refl
      (next (env_at 20) (start 10 small_storage refl (inl refl)) (omega arith) (
        authorized small_policy 2 7 (pay (pos 40) ∷ []) (env_at 20) small_storage (left_by paid)
          refl pay_passes))
      (omega arith)

set_policy_iff_example :
    (set_policy small_policy (env_at 20) small_storage
      ≡ done tt (left_by (set_policy small_policy (env_at 20) small_storage)))
    ↔ IsInstalled small_policy
        (env_at 20)
        small_storage
        (left_by (set_policy small_policy (env_at 20) small_storage))
set_policy_iff_example =
    set_policy_iff small_policy (env_at 20) small_storage
      (left_by (set_policy small_policy (env_at 20) small_storage))

set_paused_iff_example :
    (set_paused true (env_at 20) small_storage
      ≡ done tt (left_by (set_paused true (env_at 20) small_storage)))
    ↔ ((admin : ℕ) × (cfg : PolicyConfig) × Consents (env_at 20) small_storage admin
        × (some small_policy ≡ some cfg)
        × (left_by (set_paused true (env_at 20) small_storage)
            ≡ with_paused true cfg admin small_storage))
set_paused_iff_example =
    set_paused_iff true (env_at 20) small_storage
      (left_by (set_paused true (env_at 20) small_storage))

abbrev frozen : Outcome (Unit {0})
frozen = run small_host op_freeze (env_at 20) small_storage

freezes : frozen ≡ done tt (left_by frozen)
unfolding run freeze
freezes = refl

run-KeepsBudget_example : KeepsBudget small_storage (left_by frozen)
run-KeepsBudget_example =
    run-KeepsBudget small_host op_freeze (env_at 20) small_storage (left_by frozen) freezes

abbrev revoked : Outcome (Unit {0})
revoked = run_entry small_host entry_revoke_policy (env_at 20) small_storage

-- An expiry was recorded at second 2000, and the heartbeat of second 2100 is overdue at second 4000.
abbrev recorded : Storage
recorded = record small_storage { auto_frozen_at = some 2000; last_heartbeat = some 2100 }

abbrev refreshed : Outcome (Unit {0})
refreshed = run_entry small_host (operation op_refresh_deadman) (env_at 4000) recorded

abbrev one_transfer : List BatchTransfer
one_transfer = record { to = 3; amount = pos 40 } ∷ []

check_batch-check_auth_example :
    (r : BatchCheckResult) × (events : List Event) × (check_batch small_host 7 one_transfer
        (env_at 20)
        small_storage
      ≡ done r (record small_storage { events = events }))
    × ((r.admissible ≡ true) ↔ (
        (s' : Storage) × (check_auth small_host 2 7
            (batch_contexts small_host 7 one_transfer)
            (env_at 20)
            small_storage
          ≡ done none s')))
check_batch-check_auth_example =
    check_batch-check_auth small_host 7 one_transfer (env_at 20) small_storage 5 2 7 refl refl

no_transfers :
    (cfg : PolicyConfig) → some small_policy ≡ some cfg → NoTransfers small_host 4 cfg (ping ∷ [])
unfolding parse_call contains_addr
no_transfers cfg i =
    subst (λ (c : PolicyConfig). NoTransfers small_host 4 c (ping ∷ [])) (some-injective _ _ i)
      (tt, tt)

calls_unlimited_example :
    (s'' : Storage) × (check_auth_times small_host 4 2 7 (ping ∷ []) (env_at 20) small_storage
      ≡ done none s'')
calls_unlimited_example =
    calls_unlimited small_host 2 7 (ping ∷ []) (env_at 20) 4 small_storage (left_by pinged) refl
      no_transfers ping_passes
