-- ===== src/Engine/Caps.antt =====
-- Lookups of src/engine.rs in a policy: lists of addresses, caps and their overrides, and the health
-- of the dead-man switch.
use stellar_agent_guard_cont.Common.{
  ℕ, ◌-◌, ◌/◌, ℤ, is_pos, saturating_sub, checked_add, max_zero, u64_mul, Bool, true, false, ◌&&◌,
  Option, none, some, List, [], ◌∷◌, is_some, ltb, leb, ◌==◌, if◌then◌else◌,
}
use stellar_agent_guard_cont.Types.Policy.{
  Address, Symbol, addr_eq, sym_eq, RecipientCap, AssetCap, PolicyConfig, DmsHealthStatus, ok, warn,
  expired, dms_warn_threshold_percent,
}
use stellar_agent_guard_cont.Window.Ledger.{Ledger, recipient_total}

unfoldable pub contains_addr : List Address → Address → Bool
contains_addr [] a = false
contains_addr (x ∷ xs) a = if addr_eq x a then true else contains_addr xs a

unfoldable pub contains_sym : List Symbol → Symbol → Bool
contains_sym [] s = false
contains_sym (x ∷ xs) s = if sym_eq x s then true else contains_sym xs s

-- The first entry for `a` with a positive cap.
unfoldable pub override_in : List RecipientCap → Address → Option ℤ
override_in [] a = none
override_in (rc ∷ rcs) a =
    if addr_eq rc.recipient a && is_pos rc.cap then some rc.cap else override_in rcs a

unfoldable pub recipient_override_cap : PolicyConfig → Address → Option ℤ
unfolding override_in
recipient_override_cap cfg a = override_in cfg.recipient_window_caps a

unfoldable pub has_recipient_window_cap : PolicyConfig → Address → Bool
has_recipient_window_cap cfg a = is_some (recipient_override_cap cfg a)

-- A cap, `none` where it is disabled.
abbrev pub enabled : ℤ → Option ℤ
enabled cap = if is_pos cap then some cap else none

abbrev or_else : Option ℤ → Option ℤ → Option ℤ
or_else none b = b
or_else (some a) b = some a

unfoldable pub effective_window_cap : PolicyConfig → Address → Option ℤ
effective_window_cap cfg a = or_else (recipient_override_cap cfg a) (enabled cfg.window_cap)

-- The first entry for `asset` decides, also where it disables the cap.
unfoldable pub asset_cap_in : List AssetCap → ℤ → Address → Option ℤ
asset_cap_in [] global asset = enabled global
asset_cap_in (ac ∷ acs) global asset =
    if addr_eq ac.asset asset then enabled ac.per_tx_cap else asset_cap_in acs global asset

unfoldable pub effective_per_tx_cap : PolicyConfig → Address → Option ℤ
unfolding asset_cap_in
effective_per_tx_cap cfg asset = asset_cap_in cfg.asset_caps cfg.per_tx_cap asset

abbrev headroom : Option ℤ → ℤ → Option ℤ
headroom none total = none
headroom (some cap) total = some (max_zero (saturating_sub cap total))

-- Remaining window, cap of one transfer, and window cap, for one recipient.
unfoldable pub cap_metrics : PolicyConfig → Ledger → Address → Option ℤ × Option ℤ × Option ℤ
cap_metrics policy ledger recipient =
    let window_cap = effective_window_cap policy recipient in
    let per_tx_cap = enabled policy.per_tx_cap in
    let tracked_total =
      (if has_recipient_window_cap policy recipient
        then recipient_total recipient ledger
        else ledger.total) in
    (headroom window_cap tracked_total, per_tx_cap, window_cap)

unfoldable pub global_window_remaining : PolicyConfig → Ledger → Option ℤ
global_window_remaining policy ledger =
    let remaining = max_zero (saturating_sub policy.window_cap ledger.total) in
    if is_pos policy.window_cap then some remaining else none

pub add_to : Option ℤ → ℤ → Option ℤ
add_to none amount = none
add_to (some sum) amount = checked_add sum amount

-- `base + staged + amount`, `none` where a sum leaves `i128`.
unfoldable pub checked_window_projection : ℤ → ℤ → ℤ → Option ℤ
unfolding add_to
checked_window_projection base staged amount = add_to (checked_add base staged) amount

-- `dms_health`; the difference of two `u64` stops at 0.
unfoldable pub dms_health : ℕ → ℕ → PolicyConfig → DmsHealthStatus
dms_health now last_heartbeat policy =
    let elapsed = now - last_heartbeat in
    let warn_threshold = u64_mul policy.dms_grace_secs dms_warn_threshold_percent / 100 in
    if policy.dms_grace_secs == 0
    then ok
    else if last_heartbeat == 0
    then expired
    else if ltb policy.dms_grace_secs elapsed
    then expired
    else if leb warn_threshold elapsed
    then warn
    else ok
