-- ===== src/Contract/Validate/Spec.antt =====
-- What a valid policy is, as a predicate that mentions no test and no order of tests.
use stellar_agent_guard_cont.Common.{
  ℕ, ◌≤◌, ◌<◌, ℤ, pos_part, neg_part, ◌≡◌, ◌≢◌, ◌⊎◌, Option, none, some, List, [], ◌∷◌, All, length,
}
use stellar_agent_guard_cont.Types.Policy.{
  Address, Symbol, AssetCap, RecipientCap, ProtocolRule, PolicyConfig, max_policy_assets,
  max_policy_protocols, max_recipient_entries, max_asset_cap_entries, max_window_secs,
  max_dms_grace_secs,
}

module _ {ℓ} {A : Type ℓ} where
  -- No two members are related.
  abbrev pub Distinct {κ} : (A → A → Type κ) → List A → Type κ
  Distinct R [] = Unit
  Distinct R (x ∷ xs) = All (λ y. ¬ R x y) xs × Distinct R xs

  abbrev pub Absent : A → List A → Type ℓ
  Absent a xs = All (λ x. x ≢ a) xs

abbrev pub Listed : Address → List Address → Type 0
Listed a [] = ⊥
Listed a (x ∷ xs) = (x ≡ a) ⊎ Listed a xs

abbrev pub IsNonneg : ℤ → Type 0
IsNonneg z = neg_part z ≡ 0

-- A cap that is on needs a window width.
abbrev pub HasWidth : ℕ → ℤ → Type 0
HasWidth window_secs cap = 0 < pos_part cap → 0 < window_secs

pub record IsScalarValid (cfg : PolicyConfig) : Type 0 where
  pub assets_short : length cfg.assets ≤ max_policy_assets
  pub protocols_short : length cfg.protocols ≤ max_policy_protocols
  pub recipients_short : length cfg.recipients ≤ max_recipient_entries
  pub recipient_caps_short : length cfg.recipient_window_caps ≤ max_recipient_entries
  pub blocked_short : length cfg.blocked_recipients ≤ max_recipient_entries
  pub asset_caps_short : length cfg.asset_caps ≤ max_asset_cap_entries
  pub per_tx_nonneg : IsNonneg cfg.per_tx_cap
  pub window_nonneg : IsNonneg cfg.window_cap
  pub width : HasWidth cfg.window_secs cfg.window_cap
  pub per_tx_within :
      0 < pos_part cfg.window_cap → pos_part cfg.per_tx_cap ≤ pos_part cfg.window_cap
  pub interval : cfg.active_until ≢ 0 → cfg.active_from < cfg.active_until

pub record IsListValid (self_addr : Address) (cfg : PolicyConfig) : Type 0 where
  pub assets_not_self : Absent self_addr cfg.assets
  pub protocols_not_self : All (λ (pr : ProtocolRule). pr.contract ≢ self_addr) cfg.protocols
  pub recipients_not_self : Absent self_addr cfg.recipients
  pub blocked_not_self : Absent self_addr cfg.blocked_recipients
  pub assets_distinct : Distinct ◌≡◌ cfg.assets
  pub recipients_distinct : Distinct ◌≡◌ cfg.recipients
  pub blocked_distinct : Distinct ◌≡◌ cfg.blocked_recipients

abbrev pub SameRecipient : RecipientCap → RecipientCap → Type 0
SameRecipient a b = a.recipient ≡ b.recipient

abbrev pub IsRecipientCapValid : ℕ → Address → RecipientCap → Type 0
IsRecipientCapValid window_secs self_addr rc =
    IsNonneg rc.cap × HasWidth window_secs rc.cap × (rc.recipient ≢ self_addr)

abbrev pub SameAsset : AssetCap → AssetCap → Type 0
SameAsset a b = a.asset ≡ b.asset

abbrev pub IsAssetCapValid : List Address → Address → AssetCap → Type 0
IsAssetCapValid assets self_addr ac =
    IsNonneg ac.per_tx_cap × (ac.asset ≢ self_addr) × Listed ac.asset assets

abbrev pub SameContract : ProtocolRule → ProtocolRule → Type 0
SameContract a b = a.contract ≡ b.contract

-- A list of functions is not empty and names none twice.
abbrev pub AreFnsValid : Option (List Symbol) → Type 0
AreFnsValid none = Unit
AreFnsValid (some fns) = (fns ≢ []) × Distinct ◌≡◌ fns

pub record IsValidConfig (self_addr : Address) (cfg : PolicyConfig) : Type 0 where
  pub scalar : IsScalarValid cfg
  pub lists : IsListValid self_addr cfg
  pub recipient_caps_distinct : Distinct SameRecipient cfg.recipient_window_caps
  pub recipient_caps : All (IsRecipientCapValid cfg.window_secs self_addr) cfg.recipient_window_caps
  pub asset_caps_distinct : Distinct SameAsset cfg.asset_caps
  pub asset_caps : All (IsAssetCapValid cfg.assets self_addr) cfg.asset_caps
  pub disjoint : All (λ (r : Address). Absent r cfg.blocked_recipients) cfg.recipients
  pub contracts_distinct : Distinct SameContract cfg.protocols
  pub fns : All (λ (pr : ProtocolRule). AreFnsValid pr.fns) cfg.protocols
  pub window_secs_bounded : cfg.window_secs ≤ max_window_secs
  pub grace_bounded : cfg.dms_grace_secs ≤ max_dms_grace_secs
