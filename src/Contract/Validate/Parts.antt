-- ===== src/Contract/Validate/Parts.antt =====
-- Each group of tests of `first_failing_rule` passes exactly when its part of the specification holds.
use stellar_agent_guard_cont.Common.{
  ℕ, ℤ, is_pos, ◌≡◌, ◌≢◌, refl, ◌↔◌, false, ◌&&◌, none, List, [], ◌∷◌, All, any, arith, ◌==◌,
  or_false,
}
use stellar_agent_guard_cont.Types.Policy.{
  Address, addr_eq, AssetCap, RecipientCap, ProtocolRule, PolicyConfig,
}
use stellar_agent_guard_cont.Contract.Validate.{
  is_negative, same_recipient, same_asset, recipient_cap_entries, asset_cap_entries,
  first_failing_scalar_rule, first_failing_list_rule, first_failing_recipient_cap_rule,
  first_failing_asset_cap_rule,
}
use stellar_agent_guard_cont.Contract.Validate.Spec.{
  Distinct, IsNonneg, IsScalarValid, IsListValid, IsRecipientCapValid, IsAssetCapValid,
  SameRecipient, SameAsset,
}
use stellar_agent_guard_cont.Contract.Validate.Tests.{
  reject_iff, and_then_iff, any_iff, has_dup_iff, addr_decides, contains_addr_iff,
  contains_addr-Listed,
}

scalar_sound : (cfg : PolicyConfig) → first_failing_scalar_rule cfg ≡ none → IsScalarValid cfg
unfolding first_failing_scalar_rule
scalar_sound cfg e = record {
  assets_short = ground arith;
  protocols_short = ground arith;
  recipients_short = ground arith;
  recipient_caps_short = ground arith;
  blocked_short = ground arith;
  asset_caps_short = ground arith;
  per_tx_nonneg = ground arith;
  window_nonneg = ground arith;
  width = λ on. ground arith;
  per_tx_within = λ on. ground arith;
  interval = λ on. ground arith;
}

scalar_complete : (cfg : PolicyConfig) → IsScalarValid cfg → first_failing_scalar_rule cfg ≡ none
unfolding first_failing_scalar_rule
scalar_complete cfg v = ground arith

pub scalar_iff : (cfg : PolicyConfig) → (first_failing_scalar_rule cfg ≡ none) ↔ IsScalarValid cfg
scalar_iff cfg = (scalar_sound cfg, scalar_complete cfg)

protocol_not_self_iff :
    (self_addr : Address) (prs : List ProtocolRule)
    → (any (λ (pr : ProtocolRule). addr_eq pr.contract self_addr) prs ≡ false)
      ↔ All (λ (pr : ProtocolRule). pr.contract ≢ self_addr) prs
protocol_not_self_iff self_addr =
    any_iff (λ (pr : ProtocolRule). addr_eq pr.contract self_addr)
      (λ (pr : ProtocolRule). pr.contract ≡ self_addr) (λ pr. addr_decides pr.contract self_addr)

pub list_iff :
    (cfg : PolicyConfig) (self_addr : Address)
    → (first_failing_list_rule cfg self_addr ≡ none) ↔ IsListValid self_addr cfg
unfolding first_failing_list_rule
list_iff cfg self_addr =
    let assets = contains_addr_iff cfg.assets self_addr in
    let protocols = protocol_not_self_iff self_addr cfg.protocols in
    let recipients = contains_addr_iff cfg.recipients self_addr in
    let blocked = contains_addr_iff cfg.blocked_recipients self_addr in
    let distinct = has_dup_iff addr_eq ◌≡◌ addr_decides in
    (
      λ e.
          let (e₁, r₁) = (reject_iff _ _ _).0 e in
          let (e₂, r₂) = (reject_iff _ _ _).0 r₁ in
          let (e₃, r₃) = (reject_iff _ _ _).0 r₂ in
          let (e₄, r₄) = (reject_iff _ _ _).0 r₃ in
          let (e₅, e₆) = or_false _ _ e₃ in
          let (e₇, e₈) = or_false _ _ e₄ in
          let (e₉, e₁₀) = or_false _ _ e₇ in
          record {
            assets_not_self = assets.0 e₁;
            protocols_not_self = protocols.0 e₂;
            recipients_not_self = recipients.0 e₅;
            blocked_not_self = blocked.0 e₆;
            assets_distinct = (distinct cfg.assets).0 e₉;
            recipients_distinct = (distinct cfg.recipients).0 e₁₀;
            blocked_distinct = (distinct cfg.blocked_recipients).0 e₈;
          },
      λ v. rw (
        assets.1 v.assets_not_self,
        protocols.1 v.protocols_not_self,
        recipients.1 v.recipients_not_self,
        blocked.1 v.blocked_not_self,
        (distinct cfg.assets).1 v.assets_distinct,
        (distinct cfg.recipients).1 v.recipients_distinct,
        (distinct cfg.blocked_recipients).1 v.blocked_distinct,
      ),
    )

recipient_entry_iff :
    (window_secs : ℕ) (self_addr : Address) (rc : RecipientCap)
    → ((is_negative rc.cap ≡ false)
        × ((is_pos rc.cap && window_secs == 0) ≡ false)
        × (addr_eq rc.recipient self_addr ≡ false))
      ↔ IsRecipientCapValid window_secs self_addr rc
recipient_entry_iff window_secs self_addr rc = (
  λ p. (ground arith, λ on. ground arith, ground arith),
  λ v. (ground arith, ground arith, ground arith),
)

recipient_entries_iff :
    (window_secs : ℕ) (self_addr : Address) (rcs : List RecipientCap)
    → (recipient_cap_entries window_secs self_addr rcs ≡ none)
      ↔ All (IsRecipientCapValid window_secs self_addr) rcs
unfolding recipient_cap_entries
recipient_entries_iff window_secs self_addr [] = (λ e. tt, λ t. refl)
recipient_entries_iff window_secs self_addr (rc ∷ rcs) =
    let rest = recipient_entries_iff window_secs self_addr rcs in
    let entry = recipient_entry_iff window_secs self_addr rc in
    (
      λ e.
          let (e₁, r₁) = (reject_iff _ _ _).0 e in
          let (e₂, r₂) = (reject_iff _ _ _).0 r₁ in
          let (e₃, r₃) = (reject_iff _ _ _).0 r₂ in (entry.0 (e₁, e₂, e₃), rest.0 r₃),
      λ v. let (e₁, e₂, e₃) = entry.1 v.0 in rw (e₁, e₂, e₃) (rest.1 v.1),
    )

pub recipient_caps_iff :
    (cfg : PolicyConfig) (self_addr : Address)
    → (first_failing_recipient_cap_rule cfg self_addr ≡ none) ↔ (
        Distinct SameRecipient cfg.recipient_window_caps
        × All (IsRecipientCapValid cfg.window_secs self_addr) cfg.recipient_window_caps)
unfolding first_failing_recipient_cap_rule
recipient_caps_iff cfg self_addr =
    let distinct =
      has_dup_iff same_recipient SameRecipient (λ a b. addr_decides a.recipient b.recipient)
        cfg.recipient_window_caps in
    let entries = recipient_entries_iff cfg.window_secs self_addr cfg.recipient_window_caps in
    (
      λ e. let (e₁, r₁) = (reject_iff _ _ _).0 e in (distinct.0 e₁, entries.0 r₁),
      λ v. rw (distinct.1 v.0) (entries.1 v.1),
    )

nonneg : (z : ℤ) → is_negative z ≡ false → IsNonneg z
nonneg z e = ground arith

asset_entries_iff :
    (assets : List Address) (self_addr : Address) (acs : List AssetCap)
    → (asset_cap_entries assets self_addr acs ≡ none) ↔ All (IsAssetCapValid assets self_addr) acs
unfolding asset_cap_entries
asset_entries_iff assets self_addr [] = (λ e. tt, λ t. refl)
asset_entries_iff assets self_addr (ac ∷ acs) =
    let rest = asset_entries_iff assets self_addr acs in
    let listed = contains_addr-Listed assets ac.asset in
    let other = addr_decides ac.asset self_addr in
    (
      λ e.
          let (e₁, r₁) = (reject_iff _ _ _).0 e in
          let (e₂, r₂) = (reject_iff _ _ _).0 r₁ in
          let (e₃, r₃) = (reject_iff _ _ _).0 r₂ in
          ((nonneg ac.per_tx_cap e₁, other.0 e₂, listed.0 e₃), rest.0 r₃),
      λ v.
          let calm : is_negative ac.per_tx_cap ≡ false = let n = v.0.0 in ground arith in
          rw (calm, other.1 v.0.1, listed.1 v.0.2) (rest.1 v.1),
    )

pub asset_caps_iff :
    (cfg : PolicyConfig) (self_addr : Address)
    → (first_failing_asset_cap_rule cfg self_addr ≡ none) ↔ (
        Distinct SameAsset cfg.asset_caps
        × All (IsAssetCapValid cfg.assets self_addr) cfg.asset_caps)
unfolding first_failing_asset_cap_rule
asset_caps_iff cfg self_addr =
    let distinct =
      has_dup_iff same_asset SameAsset (λ a b. addr_decides a.asset b.asset) cfg.asset_caps in
    let entries = asset_entries_iff cfg.assets self_addr cfg.asset_caps in
    (
      λ e.
          let (e₁, e₂) = (and_then_iff _ _).0 e in
          (distinct.0 ((reject_iff _ _ _).0 e₂).0, entries.0 e₁),
      λ v. (and_then_iff _ _).1 (entries.1 v.1, rw (distinct.1 v.0)),
    )
