-- ===== src/Engine/Permit.antt =====
-- The rules of one call, stated without the order in which the code tests them.
use stellar_agent_guard_cont.Common.{
  ℕ, ◌≤◌, ◌<◌, ℤ, pos, negsuc, pos_part, is_pos, ltb_ℤ, leb_ℤ, u32_add, ◌≡◌, refl, ◌⊎◌, inl, inr,
  ◌↔◌, Bool, true, false, not, ◌&&◌, Option, none, some, List, find, arith, Bool-cases,
}
use text.Mathlib.TextEquality.{eq_iff}
use stellar_agent_guard_cont.Types.Policy.{Address, Symbol, addr_eq, ProtocolRule, PolicyConfig}
use stellar_agent_guard_cont.Window.Ledger.{Ledger, recipient_total}
use stellar_agent_guard_cont.Engine.Caps.{
  contains_addr, recipient_override_cap, effective_per_tx_cap, checked_window_projection,
}
use stellar_agent_guard_cont.Engine.Parse.{
  ParsedCall, asset_transfer, asset_other, protocol, self_call, create_contract, unknown,
}
use stellar_agent_guard_cont.Engine.Evaluate.{
  Staged, staged_recip, exceeds, over, recip_exceeds, global_over, asset_paused, fns_ok,
  heartbeat_symbol, evaluate_window, evaluate_transfer, evaluate_protocol, evaluate,
}
use stellar_agent_guard_cont.Engine.Decide.{is_allowed}
use stellar_agent_guard_cont.Contract.Validate.Spec.{Absent, Listed}
use stellar_agent_guard_cont.Contract.Validate.Tests.{contains_addr_iff, contains_addr-Listed}

-- `base + staged + amount` is an `i128` and at most `ceiling`.
abbrev pub Fits : ℤ → Option ℤ → Type 0
Fits ceiling projected = (z : ℤ) × (projected ≡ some z) × (ltb_ℤ ceiling z ≡ false)

abbrev pub Within : Option ℤ → ℤ → Type 0
Within none amount = Unit
Within (some ceiling) amount = ltb_ℤ ceiling amount ≡ false

abbrev pub RecipientFits : Option ℤ → Option ℤ → Type 0
RecipientFits none projected = Unit
RecipientFits (some ceiling) projected = Fits ceiling projected

-- What makes a transfer of `amount` of `asset` to `to` permitted.
pub record IsTransferPermitted (cfg : PolicyConfig) (ledger : Ledger) (asset to : Address)
    (amount : ℤ) (st : Staged) : Type 0 where
  pub unpaused : asset_paused cfg asset ≡ false
  pub positive : 0 < pos_part amount
  pub unblocked : Absent to cfg.blocked_recipients
  pub known : (cfg.allow_any_recipient ≡ true) ⊎ Listed to cfg.recipients
  pub per_tx : Within (effective_per_tx_cap cfg asset) amount
  pub window :
      is_pos cfg.window_cap ≡ true
      → Fits cfg.window_cap (checked_window_projection ledger.total st.pending amount)
  pub recipient_window :
      let recip_cap = recipient_override_cap cfg to in
      RecipientFits recip_cap (
        checked_window_projection (recipient_total to ledger) (staged_recip recip_cap to st) amount)

-- The first rule for a contract lets `fname` be called, and the window has room for one more call.
abbrev pub IsProtocolPermitted :
    PolicyConfig → Ledger → Option ProtocolRule → Symbol → Staged → Type 0
IsProtocolPermitted cfg ledger none fname st = ⊥
IsProtocolPermitted cfg ledger (some rule) fname st =
    (rule.paused ≡ false)
    × (fns_ok rule.fns fname ≡ true)
    × (0 < cfg.protocol_calls_per_window
        → u32_add (u32_add ledger.protocol_call_total st.pending_protocol_calls) 1
          ≤ cfg.protocol_calls_per_window)

-- What is permitted, for each kind of call; the kinds that are not named here never are.
abbrev pub IsPermitted : PolicyConfig → Ledger → ParsedCall → Staged → Type 0
IsPermitted cfg ledger (asset_transfer asset to amount) st =
    IsTransferPermitted cfg ledger asset to amount st
IsPermitted cfg ledger (protocol c fname) st =
    IsProtocolPermitted cfg ledger (find (λ (r : ProtocolRule). addr_eq r.contract c) cfg.protocols)
      fname st
IsPermitted cfg ledger (self_call fname) st = fname ≡ heartbeat_symbol
IsPermitted cfg ledger (asset_other asset fname) st = ⊥
IsPermitted cfg ledger create_contract st = ⊥
IsPermitted cfg ledger (unknown c fname) st = ⊥

exceeds_iff :
    (ceiling : ℤ) (projected : Option ℤ)
    → (exceeds ceiling projected ≡ false) ↔ Fits ceiling projected
exceeds_iff ceiling none = (λ e. absurd (ground arith), λ f. absurd (ground arith))
exceeds_iff ceiling (some z) = (λ e. (z, refl, e), λ f. ground arith)

over_iff : (o : Option ℤ) (amount : ℤ) → (over o amount ≡ false) ↔ Within o amount
over_iff none amount = (λ e. tt, λ t. refl)
over_iff (some ceiling) amount = (λ e. e, λ w. w)

recip_exceeds_iff :
    (o projected : Option ℤ) → (recip_exceeds o projected ≡ false) ↔ RecipientFits o projected
recip_exceeds_iff none projected = (λ e. tt, λ t. refl)
recip_exceeds_iff (some ceiling) projected = exceeds_iff ceiling projected

amount_iff : (z : ℤ) → (leb_ℤ z (pos 0) ≡ false) ↔ (0 < pos_part z)
amount_iff (pos n) = (λ e. ground arith, λ p. ground arith)
amount_iff (negsuc n) = (λ e. ground arith, λ p. ground arith)

known_iff :
    (any_recipient : Bool) (to : Address) (recipients : List Address)
    → ((not any_recipient && not (contains_addr recipients to)) ≡ false)
      ↔ ((any_recipient ≡ true) ⊎ Listed to recipients)
known_iff true to recipients = (λ e. inl refl, λ k. refl)
known_iff false to recipients =
    let listed = contains_addr-Listed recipients to in
    (
      λ e. inr (listed.0 e),
      λ k. elim k [ inl impossible ↦ absurd (ground arith) | inr member ↦ listed.1 member ],
    )

module _ (cfg : PolicyConfig) (ledger : Ledger) (now : ℕ) where
  global_iff :
      (amount : ℤ) (st : Staged)
      → (global_over cfg ledger amount st ≡ false) ↔ (
          is_pos cfg.window_cap ≡ true
          → Fits cfg.window_cap (checked_window_projection ledger.total st.pending amount))
  global_iff amount st =
      let fits =
        exceeds_iff cfg.window_cap (checked_window_projection ledger.total st.pending amount) in
      elim (Bool-cases (is_pos cfg.window_cap)) [
        | inl on ↦ rw on (λ e _. fits.0 e, λ f. fits.1 (f refl))
        | inr off ↦ rw off (λ e no. absurd (ground arith), λ f. refl)
      ]

  transfer_iff :
      (asset to : Address) (amount : ℤ) (st : Staged)
      → (is_allowed (evaluate_transfer cfg ledger now asset to amount st).0 ≡ true)
        ↔ IsTransferPermitted cfg ledger asset to amount st
  unfolding evaluate_transfer evaluate_window
  transfer_iff asset to amount st =
      let recip_cap = recipient_override_cap cfg to in
      let positive = amount_iff amount in
      let unblocked = contains_addr_iff cfg.blocked_recipients to in
      let known = known_iff cfg.allow_any_recipient to cfg.recipients in
      let per_tx = over_iff (effective_per_tx_cap cfg asset) amount in
      let window = global_iff amount st in
      let recipient = recip_exceeds_iff recip_cap (
        checked_window_projection (recipient_total to ledger) (staged_recip recip_cap to st)
          amount) in
      (
        λ h. record {
          unpaused = ground arith;
          positive = positive.0 (ground arith);
          unblocked = unblocked.0 (ground arith);
          known = known.0 (ground arith);
          per_tx = per_tx.0 (ground arith);
          window = window.0 (ground arith);
          recipient_window = recipient.0 (ground arith);
        },
        λ p. rw (
          p.unpaused,
          positive.1 p.positive,
          unblocked.1 p.unblocked,
          known.1 p.known,
          per_tx.1 p.per_tx,
          window.1 p.window,
          recipient.1 p.recipient_window,
        ),
      )

  protocol_iff :
      (rule : Option ProtocolRule) (c : Address) (fname : Symbol) (st : Staged)
      → find (λ (r : ProtocolRule). addr_eq r.contract c) cfg.protocols ≡ rule
      → (is_allowed (evaluate_protocol cfg ledger c fname st).0 ≡ true)
        ↔ IsProtocolPermitted cfg ledger rule fname st
  unfolding evaluate_protocol
  protocol_iff none c fname st found = (λ h. absurd (ground arith), λ p. absurd p)
  protocol_iff (some rule) c fname st found =
      (λ h. (ground arith, ground arith, λ on. ground arith), λ p. ground arith)

  -- A call is allowed exactly when it is permitted: a transfer by its asset, amount, recipient, cap per
  -- transaction and windows, with what was staged before it; a protocol call by its contract's first
  -- rule and the call rate; a call of the account itself by its name; anything else never.
  pub evaluate_iff :
      (call : ParsedCall) (st : Staged)
      → (is_allowed (evaluate cfg ledger now call st).0 ≡ true) ↔ IsPermitted cfg ledger call st
  unfolding evaluate
  evaluate_iff (asset_transfer asset to amount) st = transfer_iff asset to amount st
  evaluate_iff (protocol c fname) st = protocol_iff _ c fname st refl
  evaluate_iff (self_call fname) st = (
    λ h. ground (arith, eq_iff fname heartbeat_symbol),
    λ p. ground (arith, eq_iff fname heartbeat_symbol),
  )
  evaluate_iff (asset_other asset fname) st = (λ h. absurd (ground arith), λ p. absurd p)
  evaluate_iff create_contract st = (λ h. absurd (ground arith), λ p. absurd p)
  evaluate_iff (unknown c fname) st = (λ h. absurd (ground arith), λ p. absurd p)
