-- ===== src/Types/Policy.antt =====
-- The policy model of src/types.rs: what an administrator installs, and its size limits.
use stellar_agent_guard_cont.Common.{ℕ, ℤ, Bool, Option, List, ◌==◌}
use Prim.Native.String.{String}
use text.Mathlib.Text.{◌==◌ as str_eq}

-- An account or contract address. The program only compares addresses, so they are numbered.
abbrev pub Address : Type 0
Address = ℕ

abbrev pub Symbol : Type 0
Symbol = String

abbrev pub addr_eq : Address → Address → Bool
addr_eq = ◌==◌

abbrev pub sym_eq : Symbol → Symbol → Bool
sym_eq = str_eq

abbrev pub dms_warn_threshold_percent : ℕ
dms_warn_threshold_percent = 80

pub data DmsHealthStatus : Type 0 where
  ok warn expired : DmsHealthStatus

abbrev pub max_window_entries : ℕ
max_window_entries = 8192

abbrev pub max_auth_contexts : ℕ
max_auth_contexts = 64

abbrev pub max_policy_assets : ℕ
max_policy_assets = 256

abbrev pub max_policy_protocols : ℕ
max_policy_protocols = 256

abbrev pub max_recipient_entries : ℕ
max_recipient_entries = 256

abbrev pub max_asset_cap_entries : ℕ
max_asset_cap_entries = 256

abbrev pub max_window_secs : ℕ
max_window_secs = 315_360_000

abbrev pub max_dms_grace_secs : ℕ
max_dms_grace_secs = max_window_secs

pub data PolicyRuleId : Type 0 where
  amount_sign window_requires_width active_window_order self_address_in_list : PolicyRuleId
  duplicate_address_in_list duplicate_recipient_cap recipient_list_too_long : PolicyRuleId
  recipient_cap_sign recipient_allow_and_blocked protocol_contract_duplicate : PolicyRuleId
  protocol_fn_list_invalid duration_exceeds_bound asset_list_too_long : PolicyRuleId
  protocol_list_too_long per_tx_cap_exceeds_window_cap asset_cap_list_too_long : PolicyRuleId
  asset_cap_unknown_asset duplicate_asset_cap : PolicyRuleId

pub data ValidationOutcome : Type 0 where
  valid : ValidationOutcome
  invalid : PolicyRuleId → ValidationOutcome

-- A rolling cap of one recipient.
pub record RecipientCap : Type 0 where
  pub recipient : Address
  pub cap : ℤ

-- A per-transaction cap of one asset; `paused` blocks the asset.
pub record AssetCap : Type 0 where
  pub asset : Address
  pub per_tx_cap : ℤ
  pub paused : Bool

-- A callable contract; `fns` is `none` where every function may be called.
pub record ProtocolRule : Type 0 where
  pub contract : Address
  pub fns : Option (List Symbol)
  pub paused : Bool

pub record PolicyConfig : Type 0 where
  pub per_tx_cap : ℤ
  pub window_secs : ℕ
  pub window_cap : ℤ
  pub assets : List Address
  pub protocols : List ProtocolRule
  pub recipients : List Address
  pub recipient_window_caps : List RecipientCap
  pub blocked_recipients : List Address
  pub asset_caps : List AssetCap
  pub allow_any_recipient : Bool
  pub active_from : ℕ
  pub active_until : ℕ
  pub paused : Bool
  pub dms_grace_secs : ℕ
  pub protocol_calls_per_window : ℕ
