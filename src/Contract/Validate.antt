-- ===== src/Contract/Validate.antt =====
-- `first_failing_rule` of src/lib.rs: the first rule that a policy breaks, in the order of the code.
pub mod Spec
pub mod Tests
pub mod Parts
pub mod Sound
use stellar_agent_guard_cont.Common.{
  ℕ, ℤ, pos, negsuc, is_pos, ltb_ℤ, Bool, true, false, not, ◌&&◌, ◌||◌, Option, none, some, List,
  [], ◌∷◌, ◌++◌, length, any, is_empty, map, ltb, leb, ◌==◌, if◌then◌else◌,
}
use stellar_agent_guard_cont.Types.Policy.{
  Address, Symbol, addr_eq, sym_eq, AssetCap, RecipientCap, ProtocolRule, PolicyConfig,
  PolicyRuleId, amount_sign, window_requires_width, active_window_order, self_address_in_list,
  duplicate_address_in_list, duplicate_recipient_cap, recipient_list_too_long, recipient_cap_sign,
  recipient_allow_and_blocked, protocol_contract_duplicate, protocol_fn_list_invalid,
  duration_exceeds_bound, asset_list_too_long, protocol_list_too_long,
  per_tx_cap_exceeds_window_cap, asset_cap_list_too_long, asset_cap_unknown_asset,
  duplicate_asset_cap, ValidationOutcome, valid, invalid, max_policy_assets, max_policy_protocols,
  max_recipient_entries, max_asset_cap_entries, max_window_secs, max_dms_grace_secs,
}
use stellar_agent_guard_cont.Types.Error.{Error, invalid_config}
use stellar_agent_guard_cont.Engine.Caps.{contains_addr}

module _ {ℓ} {A : Type ℓ} where
  -- The two nested loops over `i < j`.
  unfoldable pub has_dup : (A → A → Bool) → List A → Bool
  has_dup eq [] = false
  has_dup eq (x ∷ xs) = any (eq x) xs || has_dup eq xs

-- `return Err(rule)` if the test holds; else what follows.
abbrev pub reject : Bool → PolicyRuleId → Option PolicyRuleId → Option PolicyRuleId
reject true rule rest = some rule
reject false rule rest = rest

abbrev pub and_then : Option PolicyRuleId → Option PolicyRuleId → Option PolicyRuleId
and_then none rest = rest
and_then (some rule) rest = some rule

abbrev pub is_negative : ℤ → Bool
is_negative (pos n) = false
is_negative (negsuc n) = true

abbrev pub same_recipient : RecipientCap → RecipientCap → Bool
same_recipient a b = addr_eq a.recipient b.recipient

abbrev pub same_asset : AssetCap → AssetCap → Bool
same_asset a b = addr_eq a.asset b.asset

-- The second loop of `first_failing_recipient_cap_rule`.
unfoldable pub recipient_cap_entries : ℕ → Address → List RecipientCap → Option PolicyRuleId
recipient_cap_entries window_secs self_addr [] = none
recipient_cap_entries window_secs self_addr (rc ∷ rcs) =
    reject (is_negative rc.cap) recipient_cap_sign (
      reject (is_pos rc.cap && window_secs == 0) window_requires_width (
        reject (addr_eq rc.recipient self_addr) self_address_in_list
          (recipient_cap_entries window_secs self_addr rcs)))

unfoldable pub first_failing_recipient_cap_rule : PolicyConfig → Address → Option PolicyRuleId
unfolding has_dup recipient_cap_entries
first_failing_recipient_cap_rule cfg self_addr =
    reject (has_dup same_recipient cfg.recipient_window_caps) duplicate_recipient_cap
      (recipient_cap_entries cfg.window_secs self_addr cfg.recipient_window_caps)

-- The first loop of `first_failing_asset_cap_rule`.
unfoldable pub asset_cap_entries : List Address → Address → List AssetCap → Option PolicyRuleId
asset_cap_entries assets self_addr [] = none
asset_cap_entries assets self_addr (ac ∷ acs) = reject (is_negative ac.per_tx_cap) amount_sign (
    reject (addr_eq ac.asset self_addr) self_address_in_list (
      reject (not (contains_addr assets ac.asset)) asset_cap_unknown_asset
        (asset_cap_entries assets self_addr acs)))

unfoldable pub first_failing_asset_cap_rule : PolicyConfig → Address → Option PolicyRuleId
unfolding has_dup asset_cap_entries
first_failing_asset_cap_rule cfg self_addr =
    and_then (asset_cap_entries cfg.assets self_addr cfg.asset_caps)
      (reject (has_dup same_asset cfg.asset_caps) duplicate_asset_cap none)

abbrev pub fns_invalid : Option (List Symbol) → Bool
fns_invalid none = false
fns_invalid (some fns) = is_empty fns || has_dup sym_eq fns

-- The loop over the protocol rules, with the contracts seen so far.
unfoldable pub protocol_entries : List Address → List ProtocolRule → Option PolicyRuleId
unfolding has_dup
protocol_entries contracts [] = none
protocol_entries contracts (pr ∷ prs) =
    reject (any (λ (existing : Address). addr_eq existing pr.contract) contracts)
      protocol_contract_duplicate
      (reject (fns_invalid pr.fns) protocol_fn_list_invalid
        (protocol_entries (contracts ++ pr.contract ∷ []) prs))

-- The tests up to the lists, on sizes, signs and the active interval.
unfoldable pub first_failing_scalar_rule : PolicyConfig → Option PolicyRuleId
first_failing_scalar_rule cfg =
    reject (ltb max_policy_assets (length cfg.assets)) asset_list_too_long (
      reject (ltb max_policy_protocols (length cfg.protocols)) protocol_list_too_long (
        reject
          (ltb max_recipient_entries (length cfg.recipients)
            || ltb max_recipient_entries (length cfg.recipient_window_caps)
            || ltb max_recipient_entries (length cfg.blocked_recipients))
          recipient_list_too_long
          (reject (ltb max_asset_cap_entries (length cfg.asset_caps)) asset_cap_list_too_long (
            reject (is_negative cfg.per_tx_cap || is_negative cfg.window_cap) amount_sign (
              reject (is_pos cfg.window_cap && cfg.window_secs == 0) window_requires_width (
                reject
                  (is_pos cfg.per_tx_cap
                    && is_pos cfg.window_cap
                    && ltb_ℤ cfg.window_cap cfg.per_tx_cap)
                  per_tx_cap_exceeds_window_cap
                  (reject (not (cfg.active_until == 0) && leb cfg.active_until cfg.active_from)
                    active_window_order none)))))))

-- The tests on the members of the lists.
unfoldable pub first_failing_list_rule : PolicyConfig → Address → Option PolicyRuleId
unfolding has_dup
first_failing_list_rule cfg self_addr =
    reject (contains_addr cfg.assets self_addr) self_address_in_list (
      reject (any (λ (pr : ProtocolRule). addr_eq pr.contract self_addr) cfg.protocols)
        self_address_in_list
        (reject
          (contains_addr cfg.recipients self_addr || contains_addr cfg.blocked_recipients self_addr)
          self_address_in_list
          (reject
            (has_dup addr_eq cfg.assets
              || has_dup addr_eq cfg.recipients
              || has_dup addr_eq cfg.blocked_recipients)
            duplicate_address_in_list none)))

-- `first_failing_rule`: `none` is `Ok(())`.
unfoldable pub first_failing_rule : Address → PolicyConfig → Option PolicyRuleId
unfolding first_failing_scalar_rule first_failing_list_rule first_failing_recipient_cap_rule
    first_failing_asset_cap_rule protocol_entries
first_failing_rule self_addr cfg = and_then (first_failing_scalar_rule cfg) (
    and_then (first_failing_list_rule cfg self_addr) (
      and_then (first_failing_recipient_cap_rule cfg self_addr) (
        and_then (first_failing_asset_cap_rule cfg self_addr) (
          reject (any (contains_addr cfg.blocked_recipients) cfg.recipients)
            recipient_allow_and_blocked
            (and_then (protocol_entries [] cfg.protocols) (
              reject
                (ltb max_window_secs cfg.window_secs || ltb max_dms_grace_secs cfg.dms_grace_secs)
                duration_exceeds_bound none))))))

abbrev pub config_error : Option PolicyRuleId → Option Error
config_error none = none
config_error (some rule) = some invalid_config

-- `validate_config`: `none` is `Ok(())`.
unfoldable pub validate_config : Address → PolicyConfig → Option Error
validate_config self_addr cfg = config_error (first_failing_rule self_addr cfg)

abbrev outcome_of : Option PolicyRuleId → ValidationOutcome
outcome_of none = valid
outcome_of (some rule) = invalid rule

-- `validate_policy`
unfoldable pub validate_policy : Address → PolicyConfig → ValidationOutcome
validate_policy self_addr cfg = outcome_of (first_failing_rule self_addr cfg)
