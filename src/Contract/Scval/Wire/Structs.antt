-- ===== src/Contract/Scval/Wire/Structs.antt =====
-- The tests of src/lib.rs on the structs of a policy's wire form.
use Prim.Native.String.{String}
use stellar_agent_guard_cont.Common.{
  ◌∙◌, ◌≡◌, refl, ap, subst, Bool, true, ◌&&◌, List, and_true, both_true,
}
use stellar_agent_guard_cont.Contract.Scval.{
  ScVal, map_of, scval_is_address, scval_is_bool, scval_is_i128, scval_is_symbol_list_or_void,
  has_exact_scval_fields, keys_ascend,
}
use stellar_agent_guard_cont.Contract.Scval.Shape.{
  asset_cap_shape, protocol_shape, recipient_cap_shape, asset_cap_fields, protocol_fields,
  recipient_cap_fields,
}
use stellar_agent_guard_cont.Contract.Scval.Fields.{
  Values, named, sorts, has_exact_scval_fields-named,
}
use stellar_agent_guard_cont.Contract.Scval.Wire.{
  WireAssetCap, WireProtocol, WireRecipientCap, sorted_asset_cap_fields, sorted_protocol_fields,
  sorted_recipient_cap_fields, asset_cap_scval, protocol_scval, recipient_cap_scval,
}
use stellar_agent_guard_cont.Contract.Scval.Wire.Parts.{
  Accepts, address_written, bool_written, i128_written, address_accepted, fns_written, fns_accepted,
}

-- A struct: a test on its fields that holds for written values only.
module _ {A : Type 0} (test : ScVal → Bool) (write : A → ScVal) (expected sorted : List String)
    (order : sorts expected sorted ≡ true)
    (exact : (v : ScVal) → test v ≡ true → has_exact_scval_fields v expected ≡ true)
    (values : (vs : Values sorted)
      → test (map_of (named sorted vs)) ≡ true
      → (a : A) × (map_of (named sorted vs) ≡ write a)) where
  pub struct_written : (v : ScVal) → test v ≡ true → (a : A) × (v ≡ write a)
  unfolding has_exact_scval_fields
  struct_written (map_of m) h =
      let (vs, e) = has_exact_scval_fields-named expected sorted order m (exact (map_of m) h) in
      let (a, e') = values vs (subst (λ z. test (map_of z) ≡ true) e h) in (a, ap map_of e ∙ e')
  struct_written v h = let e = exact v h in cc e

asset_cap_exact :
    (v : ScVal) → asset_cap_shape v ≡ true → has_exact_scval_fields v asset_cap_fields ≡ true
unfolding asset_cap_shape
asset_cap_exact v h = (and_true _ _ (and_true _ _ (and_true _ _ h).0).0).0

asset_cap_back :
    (vs : Values sorted_asset_cap_fields)
    → asset_cap_shape (map_of (named sorted_asset_cap_fields vs)) ≡ true
    → (c : WireAssetCap) × (map_of (named sorted_asset_cap_fields vs) ≡ asset_cap_scval c)
unfolding asset_cap_shape has_exact_scval_fields keys_ascend
asset_cap_back (a, (p, (n, u))) h =
    let (h', tn) = and_true (scval_is_address a && scval_is_bool p) (scval_is_i128 n) h in
    let (ta, tp) = and_true (scval_is_address a) (scval_is_bool p) h' in
    let (asset, ea) = address_written a ta in
    let (paused, ep) = bool_written p tp in
    let (cap, en) = i128_written n tn in
    (record { asset = asset; paused = paused; per_tx_cap = cap }, cc)

asset_cap_accepted : (c : WireAssetCap) → asset_cap_shape (asset_cap_scval c) ≡ true
unfolding asset_cap_shape has_exact_scval_fields keys_ascend
asset_cap_accepted c = both_true _ _ (both_true _ _ (address_accepted c.asset) refl) refl

pub Accepts-asset_cap : Accepts asset_cap_shape asset_cap_scval
Accepts-asset_cap = record {
  written =
      struct_written asset_cap_shape asset_cap_scval asset_cap_fields sorted_asset_cap_fields refl
        asset_cap_exact asset_cap_back;
  accepted = asset_cap_accepted;
}

protocol_exact :
    (v : ScVal) → protocol_shape v ≡ true → has_exact_scval_fields v protocol_fields ≡ true
unfolding protocol_shape
protocol_exact v h = (and_true _ _ (and_true _ _ (and_true _ _ h).0).0).0

protocol_back :
    (vs : Values sorted_protocol_fields)
    → protocol_shape (map_of (named sorted_protocol_fields vs)) ≡ true
    → (p : WireProtocol) × (map_of (named sorted_protocol_fields vs) ≡ protocol_scval p)
unfolding protocol_shape has_exact_scval_fields keys_ascend
protocol_back (a, (f, (p, u))) h =
    let (h', tp) =
      and_true (scval_is_address a && scval_is_symbol_list_or_void f) (scval_is_bool p) h in
    let (ta, tf) = and_true (scval_is_address a) (scval_is_symbol_list_or_void f) h' in
    let (contract, ea) = address_written a ta in
    let (fns, ef) = fns_written f tf in
    let (paused, ep) = bool_written p tp in
    (record { contract = contract; fns = fns; paused = paused }, cc)

protocol_accepted : (p : WireProtocol) → protocol_shape (protocol_scval p) ≡ true
unfolding protocol_shape has_exact_scval_fields keys_ascend
protocol_accepted p =
    both_true _ _ (both_true _ _ (address_accepted p.contract) (fns_accepted p.fns)) refl

pub Accepts-protocol : Accepts protocol_shape protocol_scval
Accepts-protocol = record {
  written =
      struct_written protocol_shape protocol_scval protocol_fields sorted_protocol_fields refl
        protocol_exact protocol_back;
  accepted = protocol_accepted;
}

recipient_cap_exact :
    (v : ScVal)
    → recipient_cap_shape v ≡ true
    → has_exact_scval_fields v recipient_cap_fields ≡ true
unfolding recipient_cap_shape
recipient_cap_exact v h = (and_true _ _ (and_true _ _ h).0).0

recipient_cap_back :
    (vs : Values sorted_recipient_cap_fields)
    → recipient_cap_shape (map_of (named sorted_recipient_cap_fields vs)) ≡ true
    → (c : WireRecipientCap) × (map_of (named sorted_recipient_cap_fields vs)
        ≡ recipient_cap_scval c)
unfolding recipient_cap_shape has_exact_scval_fields keys_ascend
recipient_cap_back (n, (a, u)) h =
    let (ta, tn) = and_true (scval_is_address a) (scval_is_i128 n) h in
    let (recipient, ea) = address_written a ta in
    let (cap, en) = i128_written n tn in (record { cap = cap; recipient = recipient }, cc)

recipient_cap_accepted : (c : WireRecipientCap) → recipient_cap_shape (recipient_cap_scval c) ≡ true
unfolding recipient_cap_shape has_exact_scval_fields keys_ascend
recipient_cap_accepted c = both_true _ _ (address_accepted c.recipient) refl

pub Accepts-recipient_cap : Accepts recipient_cap_shape recipient_cap_scval
Accepts-recipient_cap = record {
  written =
      struct_written recipient_cap_shape recipient_cap_scval recipient_cap_fields
        sorted_recipient_cap_fields refl recipient_cap_exact recipient_cap_back;
  accepted = recipient_cap_accepted;
}
