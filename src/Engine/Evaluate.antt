-- ===== src/Engine/Evaluate.antt =====
-- The rules of src/engine.rs for one call, with what this request has staged before it.
use stellar_agent_guard_cont.Common.{
  ℕ, suc, ℤ, pos, is_pos, ltb_ℤ, leb_ℤ, saturating_add, u32_add, Bool, true, false, not, ◌&&◌, ◌||◌,
  Option, none, some, List, [], ◌∷◌, ◌++◌, get_or, set, find, ltb, if◌then◌else◌,
}
use stellar_agent_guard_cont.Types.Policy.{
  Address, Symbol, addr_eq, sym_eq, AssetCap, ProtocolRule, PolicyConfig,
}
use stellar_agent_guard_cont.Types.Error.{
  Error, self_function_not_allowed, create_contract_not_allowed, unknown_contract,
  asset_not_allowed, asset_fn_not_allowed, invalid_amount, recipient_blocked, recipient_not_allowed,
  per_tx_cap_exceeded, window_cap_exceeded, protocol_not_allowed, function_not_allowed,
  protocol_call_rate_exceeded,
}
use stellar_agent_guard_cont.Types.Ledger.{SpendEntry}
use stellar_agent_guard_cont.Window.Ledger.{Ledger, recipient_total}
use stellar_agent_guard_cont.Engine.Caps.{
  contains_addr, contains_sym, recipient_override_cap, effective_per_tx_cap,
  checked_window_projection,
}
use stellar_agent_guard_cont.Engine.Parse.{
  ParsedCall, asset_transfer, asset_other, protocol, self_call, create_contract, unknown,
}

pub data Decision : Type 0 where
  allowed : Decision
  blocked : Error → Decision

-- The variables of `decide` that a call may change: the spends, the totals of recipients (two vectors
-- of one length) and the number of protocol calls staged so far.
pub record Staged : Type 0 where
  pub pending : ℤ
  pub admission : List SpendEntry
  pub pending_recipients : List Address
  pub pending_recipient_amounts : List ℤ
  pub pending_protocol_calls : ℕ

abbrev pub nothing_staged : Staged
nothing_staged = record {
  pending = pos 0;
  admission = [];
  pending_recipients = [];
  pending_recipient_amounts = [];
  pending_protocol_calls = 0;
}

abbrev bump : Option ℕ → Option ℕ
bump none = none
bump (some i) = some (suc i)

-- The place of the first address that is `a`.
unfoldable pub index_of : Address → List Address → Option ℕ
index_of a [] = none
index_of a (r ∷ rs) = if addr_eq r a then some 0 else bump (index_of a rs)

abbrev amount_at : Option ℕ → List ℤ → ℤ
amount_at none amounts = pos 0
amount_at (some i) amounts = get_or amounts i (pos 0)

-- The place and the amount staged for `to`, looked up only for a recipient with a cap of its own.
abbrev pub staged_idx : Option ℤ → Address → Staged → Option ℕ
staged_idx none to st = none
staged_idx (some cap) to st = index_of to st.pending_recipients

abbrev pub staged_recip : Option ℤ → Address → Staged → ℤ
staged_recip recip_cap to st = amount_at (staged_idx recip_cap to st) st.pending_recipient_amounts

-- A projection that left `i128` is over every cap.
abbrev pub exceeds : ℤ → Option ℤ → Bool
exceeds cap none = true
exceeds cap (some projected) = ltb_ℤ cap projected

abbrev pub over : Option ℤ → ℤ → Bool
over none amount = false
over (some cap) amount = ltb_ℤ cap amount

abbrev pub recip_exceeds : Option ℤ → Option ℤ → Bool
recip_exceeds none projected = false
recip_exceeds (some cap) projected = exceeds cap projected

abbrev pub stage_global : PolicyConfig → ℕ → ℤ → Staged → Staged
stage_global cfg now amount st =
    if is_pos cfg.window_cap
    then record st {
      pending = saturating_add st.pending amount;
      admission = st.admission ++ record { ts = now; amount = amount } ∷ [];
    }
    else st

abbrev put_recipient : Option ℕ → Address → ℤ → Staged → Staged
put_recipient none to next st = record st {
  pending_recipients = st.pending_recipients ++ to ∷ [];
  pending_recipient_amounts = st.pending_recipient_amounts ++ next ∷ [];
}
put_recipient (some i) to next st = record st {
  pending_recipient_amounts = set st.pending_recipient_amounts i next;
}

abbrev pub stage_recipient : Option ℤ → Address → ℤ → Staged → Staged
stage_recipient none to amount st = st
stage_recipient (some cap) to amount st =
    put_recipient (staged_idx (some cap) to st) to
      (saturating_add (staged_recip (some cap) to st) amount) st

-- Whether a transfer would pass the global cap, and a recipient's own.
abbrev pub global_over : PolicyConfig → Ledger → ℤ → Staged → Bool
global_over cfg ledger amount st =
    is_pos cfg.window_cap
    && exceeds cfg.window_cap (checked_window_projection ledger.total st.pending amount)

abbrev pub recip_over : Option ℤ → Ledger → Address → ℤ → Staged → Bool
recip_over recip_cap ledger to amount st =
    recip_exceeds recip_cap
      (checked_window_projection (recipient_total to ledger) (staged_recip recip_cap to st) amount)

-- The window rule of a transfer that all else allows.
unfoldable pub evaluate_window :
    PolicyConfig → Ledger → ℕ → Address → ℤ → Staged → Decision × Staged
evaluate_window cfg ledger now to amount st =
    let recip_cap = recipient_override_cap cfg to in
    if global_over cfg ledger amount st || recip_over recip_cap ledger to amount st
    then (blocked window_cap_exceeded, st)
    else (allowed, stage_recipient recip_cap to amount (stage_global cfg now amount st))

-- Whether the first entry for an asset pauses it.
unfoldable pub asset_paused : PolicyConfig → Address → Bool
asset_paused cfg asset = elim (find (λ (cap : AssetCap). addr_eq cap.asset asset) cfg.asset_caps) [
  | none ↦ false
  | some cap ↦ cap.paused
]

unfoldable pub evaluate_transfer :
    PolicyConfig → Ledger → ℕ → Address → Address → ℤ → Staged → Decision × Staged
unfolding evaluate_window
evaluate_transfer cfg ledger now asset to amount st =
    if asset_paused cfg asset
    then (blocked asset_not_allowed, st)
    else if leb_ℤ amount (pos 0)
    then (blocked invalid_amount, st)
    else if contains_addr cfg.blocked_recipients to
    then (blocked recipient_blocked, st)
    else if not cfg.allow_any_recipient && not (contains_addr cfg.recipients to)
    then (blocked recipient_not_allowed, st)
    else if over (effective_per_tx_cap cfg asset) amount
    then (blocked per_tx_cap_exceeded, st)
    else evaluate_window cfg ledger now to amount st

abbrev pub fns_ok : Option (List Symbol) → Symbol → Bool
fns_ok none fname = true
fns_ok (some fns) fname = contains_sym fns fname

abbrev pub rule_allows : Option ProtocolRule → Symbol → Decision
rule_allows none fname = blocked protocol_not_allowed
rule_allows (some rule) fname =
    if rule.paused
    then blocked protocol_not_allowed
    else if fns_ok rule.fns fname
    then allowed
    else blocked function_not_allowed

-- The first rule for a contract decides; then the number of calls in the window.
unfoldable pub evaluate_protocol :
    PolicyConfig → Ledger → Address → Symbol → Staged → Decision × Staged
evaluate_protocol cfg ledger c fname st =
    let rule = find (λ (r : ProtocolRule). addr_eq r.contract c) cfg.protocols in
    let projected_calls =
      u32_add (u32_add ledger.protocol_call_total st.pending_protocol_calls) 1 in
    elim (rule_allows rule fname) [
      | blocked e ↦ (blocked e, st)
      | allowed ↦
          if ltb 0 cfg.protocol_calls_per_window
          then (if ltb cfg.protocol_calls_per_window projected_calls
              then (blocked protocol_call_rate_exceeded, st)
              else (
                allowed,
                record st { pending_protocol_calls = u32_add st.pending_protocol_calls 1 },
              ))
          else (allowed, st)
    ]

abbrev pub heartbeat_symbol : Symbol
heartbeat_symbol = "heartbeat"

unfoldable pub evaluate : PolicyConfig → Ledger → ℕ → ParsedCall → Staged → Decision × Staged
unfolding evaluate_transfer evaluate_protocol
evaluate cfg ledger now (self_call fname) st =
    ((if sym_eq fname heartbeat_symbol then allowed else blocked self_function_not_allowed), st)
evaluate cfg ledger now create_contract st = (blocked create_contract_not_allowed, st)
evaluate cfg ledger now (unknown c fname) st = (blocked unknown_contract, st)
evaluate cfg ledger now (asset_other asset fname) st = (
  (if asset_paused cfg asset then blocked asset_not_allowed else blocked asset_fn_not_allowed),
  st,
)
evaluate cfg ledger now (asset_transfer asset to amount) st =
    evaluate_transfer cfg ledger now asset to amount st
evaluate cfg ledger now (protocol c fname) st = evaluate_protocol cfg ledger c fname st
