-- ===== src/Scenarios/Decisions.antt =====
-- Decisions on a few calls.
use stellar_agent_guard_cont.Common.{
  ◌<◌, pos, ◌≡◌, refl, ◌⊎◌, ◌↔◌, true, false, none, some, [], ◌∷◌, arith, all, saturating_add,
  checked_add, ◌+ℤ◌,
}
use stellar_agent_guard_cont.Types.Policy.{expired}
use stellar_agent_guard_cont.Types.Error.{heartbeat_expired, window_cap_exceeded}
use stellar_agent_guard_cont.Window.Ledger.{empty, prune, call_window}
use stellar_agent_guard_cont.Engine.Caps.{
  contains_addr, recipient_override_cap, effective_per_tx_cap, checked_window_projection,
  dms_health,
}
use stellar_agent_guard_cont.Window.Single.{prune_entries}
use stellar_agent_guard_cont.Engine.Parse.{asset_transfer, parse_call}
use stellar_agent_guard_cont.Engine.Evaluate.{
  allowed, blocked, nothing_staged, asset_paused, evaluate,
}
use stellar_agent_guard_cont.Engine.Decide.{account_error, is_allowed, decide}
use stellar_agent_guard_cont.Engine.Requested.{requested}
use stellar_agent_guard_cont.Engine.Ceiling.{IsCurrent, Grants, decide-Grants, decide_blocked}
use stellar_agent_guard_cont.Window.Protocol.{prune_protocol_call_entries}
use stellar_agent_guard_cont.Window.Calls.{IsCallWindow}
use stellar_agent_guard_cont.Engine.CallRate.{requested_calls}
use stellar_agent_guard_cont.Engine.CallRate.Granted.{GrantsCalls, decide-GrantsCalls}
use stellar_agent_guard_cont.Engine.Permit.{IsPermitted, evaluate_iff}
use stellar_agent_guard_cont.Engine.Gates.{IsAdmissible, dms_health_iff, decide_iff}
use stellar_agent_guard_cont.Contract.Validate.{first_failing_rule}
use stellar_agent_guard_cont.Contract.Validate.Spec.{IsValidConfig}
use stellar_agent_guard_cont.Contract.Validate.Sound.{first_failing_rule_iff}
use stellar_agent_guard_cont.Scenarios.{small_host, small_policy, awake, pay, ping}

empty-IsCurrent : IsCurrent 20 empty
unfolding empty
empty-IsCurrent = record {
  window = record {
    positive = tt;
    sorted = tt;
    exact = refl;
    bounded = omega arith;
    short = omega arith;
  };
  times = tt;
}

-- Two transfers within the caps, and two that pass the window's cap together.
fits_test :
    (decide small_host 4 (some small_policy) awake empty 20 (pay (pos 40) ∷ pay (pos 60) ∷ [])).0
    ≡ allowed ∷ allowed ∷ []
unfolding decide empty account_error evaluate parse_call contains_addr asset_paused
    effective_per_tx_cap checked_window_projection checked_add ◌+ℤ◌ prune prune_entries
    recipient_override_cap saturating_add
fits_test = refl

over_test :
    (decide small_host 4 (some small_policy) awake empty 20 (pay (pos 50) ∷ pay (pos 60) ∷ [])).0
    ≡ allowed ∷ blocked window_cap_exceeded ∷ []
unfolding decide empty account_error evaluate parse_call contains_addr asset_paused
    effective_per_tx_cap checked_window_projection checked_add ◌+ℤ◌ prune prune_entries
    recipient_override_cap saturating_add
over_test = refl

pay_passes :
    all is_allowed (decide small_host 4 (some small_policy) awake empty 20 (pay (pos 40) ∷ [])).0
    ≡ true
unfolding decide empty account_error evaluate parse_call contains_addr asset_paused
    effective_per_tx_cap checked_window_projection checked_add ◌+ℤ◌ prune prune_entries
    recipient_override_cap saturating_add
pay_passes = refl

pay_fails :
    all is_allowed (decide small_host 4 (some small_policy) awake empty 20 (pay (pos 70) ∷ [])).0
    ≡ false
unfolding decide empty account_error evaluate parse_call contains_addr asset_paused
    effective_per_tx_cap checked_window_projection checked_add ◌+ℤ◌ prune prune_entries
    recipient_override_cap saturating_add
pay_fails = refl

decide-Grants_example :
    Grants small_policy 20
      (requested small_host 4 small_policy 20 (pay (pos 40) ∷ []))
      empty
      (decide small_host 4 (some small_policy) awake empty 20 (pay (pos 40) ∷ [])).1
decide-Grants_example =
    decide-Grants small_host 4 small_policy 20 awake empty (pay (pos 40) ∷ []) refl empty-IsCurrent
      pay_passes

decide_blocked_example :
    ((decide small_host 4 (some small_policy) awake empty 20 (pay (pos 70) ∷ [])).1 ≡ empty)
    ⊎ ((decide small_host 4 (some small_policy) awake empty 20 (pay (pos 70) ∷ [])).1
        ≡ prune 20 50 empty)
decide_blocked_example =
    decide_blocked small_host 4 20 small_policy awake empty (pay (pos 70) ∷ []) pay_fails

decide_iff_example :
    (all is_allowed
        (decide small_host 4 (some small_policy) awake empty 20 (pay (pos 40) ∷ ping ∷ [])).0
      ≡ true)
    ↔ IsAdmissible small_host 4 (some small_policy) awake empty 20 (pay (pos 40) ∷ ping ∷ [])
decide_iff_example =
    decide_iff small_host 4 (some small_policy) awake empty 20 (pay (pos 40)) (ping ∷ [])

evaluate_iff_example :
    (is_allowed (evaluate small_policy empty 20 (asset_transfer 7 3 (pos 40)) nothing_staged).0
      ≡ true)
    ↔ IsPermitted small_policy empty (asset_transfer 7 3 (pos 40)) nothing_staged
evaluate_iff_example =
    evaluate_iff small_policy empty 20 (asset_transfer 7 3 (pos 40)) nothing_staged

dms_health_iff_example : (dms_health 2000 10 small_policy ≡ expired) ↔ (
    (account_error small_policy awake 2000 ≡ some heartbeat_expired)
    ⊎ ((0 < small_policy.dms_grace_secs) × (awake.last_heartbeat ≡ 0)))
dms_health_iff_example = dms_health_iff small_policy awake 2000

first_failing_rule_iff_example :
    (first_failing_rule 4 small_policy ≡ none) ↔ IsValidConfig 4 small_policy
first_failing_rule_iff_example = first_failing_rule_iff 4 small_policy

empty-IsCallWindow : IsCallWindow 20 (call_window empty)
unfolding empty
empty-IsCallWindow = record {
  sorted = tt;
  times = tt;
  exact = refl;
  bounded = omega arith;
  short = omega arith;
}

ping_passes :
    all is_allowed (decide small_host 4 (some small_policy) awake empty 20 (ping ∷ [])).0 ≡ true
unfolding decide empty account_error evaluate parse_call contains_addr prune prune_entries
    prune_protocol_call_entries
ping_passes = refl

decide-GrantsCalls_example :
    GrantsCalls small_policy 20
      (requested_calls small_host 4 small_policy (ping ∷ []))
      empty
      (decide small_host 4 (some small_policy) awake empty 20 (ping ∷ [])).1
decide-GrantsCalls_example =
    decide-GrantsCalls small_host 4 small_policy 20 (omega arith) (omega arith) awake empty
      (ping ∷ []) empty-IsCallWindow ping_passes
