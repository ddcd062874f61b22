-- ===== src/Contract/Scval/Wire/Policy.antt =====
-- The shape check of src/lib.rs on a whole policy, and the validation behind it.
use stellar_agent_guard_cont.Common.{
  ◌≡◌, refl, subst, sym, ◌↔◌, if◌then◌else◌, Bool, true, false, ◌&&◌, Option, none, some, and_true,
  both_true,
}
use stellar_agent_guard_cont.Types.Policy.{Address, PolicyConfig}
use stellar_agent_guard_cont.Types.Error.{Error, invalid_config}
use stellar_agent_guard_cont.Contract.Validate.Spec.{IsValidConfig}
use stellar_agent_guard_cont.Contract.Install.{validate_config_iff}
use stellar_agent_guard_cont.AgentTx.Text.{some_injective}
use stellar_agent_guard_cont.Contract.Scval.{
  ScVal, map_of, has_exact_scval_fields, keys_ascend, scval_vec_is_addresses,
}
use stellar_agent_guard_cont.Contract.Scval.Shape.{
  policy_fields, vec_of, asset_cap_shape, protocol_shape, recipient_cap_shape,
  policy_config_scval_has_safe_struct_shape, validate_policy_config_scval, validated_config,
  decoded_config,
}
use stellar_agent_guard_cont.Contract.Scval.Fields.{Values, named}
use stellar_agent_guard_cont.Contract.Scval.Wire.{
  WirePolicy, sorted_policy_fields, asset_cap_scval, protocol_scval, recipient_cap_scval,
  policy_scval,
}
use stellar_agent_guard_cont.Contract.Scval.Wire.Parts.{Accepts-list, Accepts-addresses}
use stellar_agent_guard_cont.Contract.Scval.Wire.Structs.{
  struct_written, Accepts-asset_cap, Accepts-protocol, Accepts-recipient_cap,
}

policy_exact :
    (v : ScVal)
    → policy_config_scval_has_safe_struct_shape v ≡ true
    → has_exact_scval_fields v policy_fields ≡ true
unfolding policy_config_scval_has_safe_struct_shape
policy_exact v h = (and_true _ _ (and_true _ _ (and_true _ _ (and_true _ _ h).0).0).0).0

policy_back :
    (vs : Values sorted_policy_fields)
    → policy_config_scval_has_safe_struct_shape (map_of (named sorted_policy_fields vs)) ≡ true
    → (w : WirePolicy) × (map_of (named sorted_policy_fields vs) ≡ policy_scval w)
unfolding policy_config_scval_has_safe_struct_shape has_exact_scval_fields keys_ascend
policy_back
      (
        v1,
        (
          v2,
          (
            v3,
            (
              caps,
              (
                assets,
                (
                  blocked,
                  (v7, (v8, (v9, (v10, (protocols, (rcaps, (recipients, (v14, (v15, u))))))))),
                ),
              ),
            ),
          ),
        ),
      )
      h =
    let addresses =
      scval_vec_is_addresses assets
      && (scval_vec_is_addresses recipients && (scval_vec_is_addresses blocked && true)) in
    let (h1, tr) =
      and_true (addresses && vec_of asset_cap_shape caps && vec_of protocol_shape protocols)
        (vec_of recipient_cap_shape rcaps) h in
    let (h2, tp) =
      and_true (addresses && vec_of asset_cap_shape caps) (vec_of protocol_shape protocols) h1 in
    let (h3, tc) = and_true addresses (vec_of asset_cap_shape caps) h2 in
    let (ta, h4) = and_true (scval_vec_is_addresses assets) _ h3 in
    let (ti, h5) = and_true (scval_vec_is_addresses recipients) _ h4 in
    let (tb, h6) = and_true (scval_vec_is_addresses blocked) true h5 in
    let (owned, ea) = Accepts-addresses.written assets ta in
    let (others, ei) = Accepts-addresses.written recipients ti in
    let (barred, eb) = Accepts-addresses.written blocked tb in
    let (capped, ec) =
      (Accepts-list asset_cap_shape asset_cap_scval Accepts-asset_cap).written caps tc in
    let (rules, ep) =
      (Accepts-list protocol_shape protocol_scval Accepts-protocol).written protocols tp in
    let (limits, er) =
      (Accepts-list recipient_cap_shape recipient_cap_scval Accepts-recipient_cap).written rcaps
        tr in
    (
      record {
        active_from = v1;
        active_until = v2;
        allow_any_recipient = v3;
        asset_caps = capped;
        assets = owned;
        blocked_recipients = barred;
        dms_grace_secs = v7;
        paused = v8;
        per_tx_cap = v9;
        protocol_calls_per_window = v10;
        protocols = rules;
        recipient_window_caps = limits;
        recipients = others;
        window_cap = v14;
        window_secs = v15;
      },
      cc,
    )

policy_accepted :
    (w : WirePolicy) → policy_config_scval_has_safe_struct_shape (policy_scval w) ≡ true
unfolding policy_config_scval_has_safe_struct_shape has_exact_scval_fields keys_ascend
policy_accepted w =
    let addresses = both_true _ _ (Accepts-addresses.accepted w.assets) (
      both_true _ _ (Accepts-addresses.accepted w.recipients)
        (both_true _ true (Accepts-addresses.accepted w.blocked_recipients) refl)) in
    let caps =
      (Accepts-list asset_cap_shape asset_cap_scval Accepts-asset_cap).accepted w.asset_caps in
    let rules =
      (Accepts-list protocol_shape protocol_scval Accepts-protocol).accepted w.protocols in
    let limits =
      (Accepts-list recipient_cap_shape recipient_cap_scval Accepts-recipient_cap).accepted
        w.recipient_window_caps in
    both_true _ _ (both_true _ _ (both_true _ _ addresses caps) rules) limits

-- A value has the shape that is checked exactly when it is a written policy: a map of the fifteen fields in
-- the order of their names, with lists of addresses, of asset caps, of protocol rules and of recipient caps
-- whose elements are all of their types.
pub policy_config_scval_has_safe_struct_shape_iff :
    (v : ScVal)
    → (policy_config_scval_has_safe_struct_shape v ≡ true)
      ↔ ((w : WirePolicy) × (v ≡ policy_scval w))
policy_config_scval_has_safe_struct_shape_iff v = (
  struct_written policy_config_scval_has_safe_struct_shape policy_scval policy_fields
      sorted_policy_fields refl policy_exact policy_back v,
  λ p.
      subst (λ z. policy_config_scval_has_safe_struct_shape z ≡ true) (sym p.1)
        (policy_accepted p.0),
)

guarded_iff :
    (b : Bool) (o : Option Error)
    → ((if b then o else some invalid_config) ≡ none) ↔ ((b ≡ true) × (o ≡ none))
guarded_iff true o = (λ h. (refl, h), λ p. p.1)
guarded_iff false o = (λ h. cc h, λ p. let e = p.0 in cc e)

module _ {Val : Type 0} (to_val : ScVal → Option Val) (from_val : Val → Option PolicyConfig)
    (self_addr : Address) (scval : ScVal) where
  -- The written policies that convert to a valid policy.
  abbrev pub IsAccepted : Type 0
  IsAccepted =
      ((w : WirePolicy) × (scval ≡ policy_scval w))
      × ((config : PolicyConfig) × (decoded_config to_val from_val (to_val scval) ≡ some config)
          × IsValidConfig self_addr config)

  validated_iff :
      (o : Option PolicyConfig)
      → (validated_config to_val from_val self_addr o ≡ none)
        ↔ ((config : PolicyConfig) × (o ≡ some config) × IsValidConfig self_addr config)
  validated_iff none = (λ h. cc h, λ p. let e = p.1 in cc e)
  validated_iff (some config) = (
    λ h. (config, refl, (validate_config_iff self_addr config).0 h),
    λ p.
        let same = some_injective config p.0 p.1 in
        (validate_config_iff self_addr config).1
          (subst (λ z. IsValidConfig self_addr z) (sym same) p.2),
  )

  -- A value is accepted exactly when it is a written policy, the SDK converts it, and the policy that comes
  -- out is valid.
  pub validate_policy_config_scval_iff :
      (validate_policy_config_scval to_val from_val self_addr scval ≡ none) ↔ IsAccepted
  unfolding validate_policy_config_scval
  validate_policy_config_scval_iff =
      let shape = policy_config_scval_has_safe_struct_shape_iff scval in
      let conversion = validated_iff (decoded_config to_val from_val (to_val scval)) in
      let tested = guarded_iff (policy_config_scval_has_safe_struct_shape scval) (
        validated_config to_val from_val self_addr
          (decoded_config to_val from_val (to_val scval))) in
      (
        λ h. let (e, r) = tested.0 h in (shape.0 e, conversion.0 r),
        λ p. tested.1 (shape.1 p.0, conversion.1 p.1),
      )
