-- ===== src/Contract/Scval/Shape.antt =====
-- `policy_config_scval_has_safe_struct_shape` and `validate_policy_config_scval` of src/lib.rs.
use Prim.Native.String.{String}
use stellar_agent_guard_cont.Common.{
  Bool, false, ◌&&◌, all, Option, none, some, List, [], ◌∷◌, if◌then◌else◌,
}
use stellar_agent_guard_cont.Types.Policy.{Address, PolicyConfig}
use stellar_agent_guard_cont.Types.Error.{Error, invalid_config}
use stellar_agent_guard_cont.Contract.Validate.{validate_config}
use stellar_agent_guard_cont.Contract.Scval.{
  ScVal, vec, vec_items, has_exact_scval_fields, scval_field, scval_is_address, scval_is_bool,
  scval_is_i128, scval_is_symbol_list_or_void, scval_vec_is_addresses,
}

abbrev pub policy_fields : List String
policy_fields =
    "per_tx_cap" ∷ "window_secs" ∷ "window_cap" ∷ "assets" ∷ "asset_caps" ∷ "protocols"
    ∷ "recipients" ∷ "recipient_window_caps" ∷ "blocked_recipients" ∷ "allow_any_recipient"
    ∷ "active_from" ∷ "active_until" ∷ "paused" ∷ "dms_grace_secs" ∷ "protocol_calls_per_window"
    ∷ []

abbrev pub address_list_fields : List String
address_list_fields = "assets" ∷ "recipients" ∷ "blocked_recipients" ∷ []

abbrev pub asset_cap_fields : List String
asset_cap_fields = "asset" ∷ "paused" ∷ "per_tx_cap" ∷ []

abbrev pub protocol_fields : List String
protocol_fields = "contract" ∷ "fns" ∷ "paused" ∷ []

abbrev pub recipient_cap_fields : List String
recipient_cap_fields = "recipient" ∷ "cap" ∷ []

abbrev pub is_some_and : Option ScVal → (ScVal → Bool) → Bool
is_some_and none p = false
is_some_and (some v) p = p v

-- `scval_field(value, field).is_some_and(p)`
abbrev pub field_is : ScVal → String → (ScVal → Bool) → Bool
field_is value field p = is_some_and (scval_field value field) p

-- `let Some(ScVal::Vec(Some(items))) = value` and a test on all the items
abbrev pub vec_of : (ScVal → Bool) → ScVal → Bool
vec_of p (vec items) = all p (vec_items items)
vec_of p _ = false

unfoldable pub asset_cap_shape : ScVal → Bool
unfolding has_exact_scval_fields
asset_cap_shape cap =
    has_exact_scval_fields cap asset_cap_fields
    && field_is cap "asset" scval_is_address
    && field_is cap "paused" scval_is_bool
    && field_is cap "per_tx_cap" scval_is_i128

unfoldable pub protocol_shape : ScVal → Bool
unfolding has_exact_scval_fields
protocol_shape rule =
    has_exact_scval_fields rule protocol_fields
    && field_is rule "contract" scval_is_address
    && field_is rule "fns" scval_is_symbol_list_or_void
    && field_is rule "paused" scval_is_bool

unfoldable pub recipient_cap_shape : ScVal → Bool
unfolding has_exact_scval_fields
recipient_cap_shape cap =
    has_exact_scval_fields cap recipient_cap_fields
    && field_is cap "recipient" scval_is_address
    && field_is cap "cap" scval_is_i128

unfoldable pub policy_config_scval_has_safe_struct_shape : ScVal → Bool
unfolding has_exact_scval_fields asset_cap_shape protocol_shape recipient_cap_shape
policy_config_scval_has_safe_struct_shape value =
    has_exact_scval_fields value policy_fields
    && all (λ (field : String). field_is value field scval_vec_is_addresses) address_list_fields
    && field_is value "asset_caps" (vec_of asset_cap_shape)
    && field_is value "protocols" (vec_of protocol_shape)
    && field_is value "recipient_window_caps" (vec_of recipient_cap_shape)

-- The conversions of the SDK, to a value of the host and from there to a policy; `none` is an error.
module _ {Val : Type 0} (to_val : ScVal → Option Val) (from_val : Val → Option PolicyConfig) where
  abbrev pub validated_config : Address → Option PolicyConfig → Option Error
  validated_config self_addr none = some invalid_config
  validated_config self_addr (some config) = validate_config self_addr config

  abbrev pub decoded_config : Option Val → Option PolicyConfig
  decoded_config none = none
  decoded_config (some v) = from_val v

  -- `none` is `Ok(())`.
  unfoldable pub validate_policy_config_scval : Address → ScVal → Option Error
  unfolding policy_config_scval_has_safe_struct_shape
  validate_policy_config_scval self_addr scval =
      if policy_config_scval_has_safe_struct_shape scval
      then validated_config self_addr (decoded_config (to_val scval))
      else some invalid_config
