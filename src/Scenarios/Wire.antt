-- ===== src/Scenarios/Wire.antt =====
-- The wire form of a small policy, and its check.
use stellar_agent_guard_cont.Common.{pos, ◌≡◌, refl, ◌↔◌, true, false, none, some, [], ◌∷◌}
use stellar_agent_guard_cont.Types.Policy.{PolicyConfig}
use stellar_agent_guard_cont.Contract.Scval.{
  ScVal, i128, map_of, item, no_items, vec, address, muxed_account, symbol, has_exact_scval_fields,
  keys_ascend, no_entries, entry,
}
use stellar_agent_guard_cont.Contract.Scval.Shape.{
  policy_config_scval_has_safe_struct_shape, validate_policy_config_scval,
}
use stellar_agent_guard_cont.Contract.Scval.Wire.{WirePolicy, of_account, of_contract, policy_scval}
use stellar_agent_guard_cont.Contract.Scval.Wire.Policy.{
  policy_config_scval_has_safe_struct_shape_iff, IsAccepted, validate_policy_config_scval_iff,
}
use stellar_agent_guard_cont.Scenarios.{small_policy}

abbrev capped_policy : PolicyConfig
capped_policy = record small_policy {
  asset_caps = record { asset = 7; per_tx_cap = pos 50; paused = false } ∷ [];
}

abbrev wire_policy : WirePolicy
wire_policy = record {
  active_from = ScVal.u64 0;
  active_until = ScVal.u64 0;
  allow_any_recipient = ScVal.bool false;
  asset_caps = record { asset = of_contract 7; paused = false; per_tx_cap = pos 50 } ∷ [];
  assets = of_contract 7 ∷ [];
  blocked_recipients = [];
  dms_grace_secs = ScVal.u64 1000;
  paused = ScVal.bool false;
  per_tx_cap = i128 (pos 60);
  protocol_calls_per_window = ScVal.u64 1;
  protocols = record { contract = of_contract 9; fns = none; paused = false } ∷ [];
  recipient_window_caps = [];
  recipients = of_account 3 ∷ [];
  window_cap = i128 (pos 100);
  window_secs = ScVal.u64 50;
}

-- What is no map is refused.
list_test :
    policy_config_scval_has_safe_struct_shape (vec (item (address (muxed_account 3)) no_items))
    ≡ false
unfolding policy_config_scval_has_safe_struct_shape has_exact_scval_fields
list_test = refl

-- Keys out of order are refused.
unordered_test :
    has_exact_scval_fields
      (map_of
        (entry (symbol (98 ∷ [])) ScVal.void (entry (symbol (97 ∷ [])) ScVal.void no_entries)))
      ("a" ∷ "b" ∷ [])
    ≡ false
unfolding has_exact_scval_fields keys_ascend
unordered_test = refl

policy_config_scval_has_safe_struct_shape_iff_example :
    (policy_config_scval_has_safe_struct_shape (policy_scval wire_policy) ≡ true)
    ↔ ((w : WirePolicy) × (policy_scval wire_policy ≡ policy_scval w))
policy_config_scval_has_safe_struct_shape_iff_example =
    policy_config_scval_has_safe_struct_shape_iff (policy_scval wire_policy)

validate_policy_config_scval_iff_example :
    (validate_policy_config_scval {Val = ScVal} some
        (λ v. some capped_policy)
        1
        (policy_scval wire_policy)
      ≡ none)
    ↔ IsAccepted {Val = ScVal} some (λ v. some capped_policy) 1 (policy_scval wire_policy)
validate_policy_config_scval_iff_example =
    validate_policy_config_scval_iff {Val = ScVal} some (λ v. some capped_policy) 1
      (policy_scval wire_policy)
