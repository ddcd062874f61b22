-- ===== src/Contract/Scval/Wire.antt =====
-- The wire forms that the shape check of src/lib.rs accepts: the structs of src/types.rs as the SDK writes
-- them, with the elements of their lists typed and their scalars left to the conversion.
pub mod Parts
pub mod Structs
pub mod Policy
use Prim.Native.String.{String}
use stellar_agent_guard_cont.Common.{ℕ, ℤ, Bool, Option, none, some, List, [], ◌∷◌}
use stellar_agent_guard_cont.Contract.Scval.{
  ScAddress, account, contract_address, ScVal, void, i128, symbol, vec, map_of, address, ScVec,
  no_items, item,
}
use stellar_agent_guard_cont.Contract.Scval.Fields.{◌&◌, named}

pub data WireAddress : Type 0 where
  of_account of_contract : ℕ → WireAddress

pub record WireAssetCap : Type 0 where
  pub asset : WireAddress
  pub paused : Bool
  pub per_tx_cap : ℤ

pub record WireProtocol : Type 0 where
  pub contract : WireAddress
  pub fns : Option (List (List ℕ))
  pub paused : Bool

pub record WireRecipientCap : Type 0 where
  pub cap : ℤ
  pub recipient : WireAddress

-- The fields in the order of their names, as the SDK writes them.
pub record WirePolicy : Type 0 where
  pub active_from : ScVal
  pub active_until : ScVal
  pub allow_any_recipient : ScVal
  pub asset_caps : List WireAssetCap
  pub assets : List WireAddress
  pub blocked_recipients : List WireAddress
  pub dms_grace_secs : ScVal
  pub paused : ScVal
  pub per_tx_cap : ScVal
  pub protocol_calls_per_window : ScVal
  pub protocols : List WireProtocol
  pub recipient_window_caps : List WireRecipientCap
  pub recipients : List WireAddress
  pub window_cap : ScVal
  pub window_secs : ScVal

abbrev pub address_scval : WireAddress → ScVal
address_scval (of_account n) = address (account n)
address_scval (of_contract n) = address (contract_address n)

abbrev pub items_scval : {A : Type 0} → (A → ScVal) → List A → ScVec
items_scval f [] = no_items
items_scval f (a ∷ as') = item (f a) (items_scval f as')

abbrev pub list_scval : {A : Type 0} → (A → ScVal) → List A → ScVal
list_scval f xs = vec (items_scval f xs)

abbrev pub fns_scval : Option (List (List ℕ)) → ScVal
fns_scval none = void
fns_scval (some fns) = list_scval symbol fns

abbrev pub sorted_asset_cap_fields : List String
sorted_asset_cap_fields = "asset" ∷ "paused" ∷ "per_tx_cap" ∷ []

abbrev pub sorted_protocol_fields : List String
sorted_protocol_fields = "contract" ∷ "fns" ∷ "paused" ∷ []

abbrev pub sorted_recipient_cap_fields : List String
sorted_recipient_cap_fields = "cap" ∷ "recipient" ∷ []

abbrev pub sorted_policy_fields : List String
sorted_policy_fields =
    "active_from" ∷ "active_until" ∷ "allow_any_recipient" ∷ "asset_caps" ∷ "assets"
    ∷ "blocked_recipients" ∷ "dms_grace_secs" ∷ "paused" ∷ "per_tx_cap"
    ∷ "protocol_calls_per_window" ∷ "protocols" ∷ "recipient_window_caps" ∷ "recipients"
    ∷ "window_cap" ∷ "window_secs" ∷ []

abbrev pub asset_cap_scval : WireAssetCap → ScVal
asset_cap_scval c = map_of (
    named sorted_asset_cap_fields
      (address_scval c.asset & ScVal.bool c.paused & i128 c.per_tx_cap & tt))

abbrev pub protocol_scval : WireProtocol → ScVal
protocol_scval p = map_of (
    named sorted_protocol_fields
      (address_scval p.contract & fns_scval p.fns & ScVal.bool p.paused & tt))

abbrev pub recipient_cap_scval : WireRecipientCap → ScVal
recipient_cap_scval c =
    map_of (named sorted_recipient_cap_fields (i128 c.cap & address_scval c.recipient & tt))

abbrev pub policy_scval : WirePolicy → ScVal
policy_scval w = map_of (
    named sorted_policy_fields (
      w.active_from
      & w.active_until
      & w.allow_any_recipient
      & list_scval asset_cap_scval w.asset_caps
      & list_scval address_scval w.assets
      & list_scval address_scval w.blocked_recipients
      & w.dms_grace_secs
      & w.paused
      & w.per_tx_cap
      & w.protocol_calls_per_window
      & list_scval protocol_scval w.protocols
      & list_scval recipient_cap_scval w.recipient_window_caps
      & list_scval address_scval w.recipients
      & w.window_cap
      & w.window_secs
      & tt))
