-- ===== src/Engine/Requested.antt =====
-- A request that passes stages exactly the spends of its transfers, in their order.
use stellar_agent_guard_cont.Common.{
  and_true, and_assoc, ℕ, ℤ, is_pos, ◌≡◌, refl, ◌∙◌, inl, inr, Bool, true, ◌&&◌, Option, none, some,
  List, [], ◌∷◌, ◌++◌, Option-cases, arith, all,
}
use mathlib.Core.List.{append_assoc, append-nil}
use stellar_agent_guard_cont.Types.Policy.{Address, PolicyConfig}
use stellar_agent_guard_cont.Types.Ledger.{SpendEntry}
use stellar_agent_guard_cont.Host.{Host, Context}
use stellar_agent_guard_cont.Window.Ledger.{Ledger}
use stellar_agent_guard_cont.Engine.Caps.{recipient_override_cap}
use stellar_agent_guard_cont.Engine.Parse.{
  ParsedCall, asset_transfer, asset_other, protocol, self_call, create_contract, unknown,
  parse_call,
}
use stellar_agent_guard_cont.Engine.Evaluate.{
  Staged, nothing_staged, stage_global, stage_recipient, staged_idx, evaluate_window, evaluate,
}
use stellar_agent_guard_cont.Engine.Decide.{judge, is_allowed}

-- The spend that a call asks for.
abbrev pub call_spends : ℕ → ParsedCall → List SpendEntry
call_spends now (asset_transfer asset to amount) = record { ts = now; amount = amount } ∷ []
call_spends now _ = []

module _ (cfg : PolicyConfig) (ledger : Ledger) (now : ℕ)
    (cap_on : is_pos cfg.window_cap ≡ true) where
  stage_recipient-admission :
      (recip_cap : Option ℤ) (to : Address) (amount : ℤ) (st : Staged)
      → (stage_recipient recip_cap to amount st).admission ≡ st.admission
  stage_recipient-admission none to amount st = refl
  stage_recipient-admission (some cap) to amount st =
      elim (Option-cases (staged_idx (some cap) to st)) [
        | inl first ↦ rw first
        | inr (i, again) ↦ rw again
      ]

  evaluate_window-admission :
      (to : Address) (amount : ℤ) (st : Staged)
      → is_allowed (evaluate_window cfg ledger now to amount st).0 ≡ true
      → (evaluate_window cfg ledger now to amount st).1.admission
        ≡ st.admission ++ record { ts = now; amount = amount } ∷ []
  unfolding evaluate_window
  evaluate_window-admission to amount st h = ground (
    arith,
    stage_recipient-admission (recipient_override_cap cfg to) to amount
        (stage_global cfg now amount st),
  )

  evaluate-admission :
      (call : ParsedCall) (st : Staged)
      → is_allowed (evaluate cfg ledger now call st).0 ≡ true
      → (evaluate cfg ledger now call st).1.admission ≡ st.admission ++ call_spends now call
  unfolding evaluate
  evaluate-admission (asset_transfer asset to amount) st h =
      ground (arith, evaluate_window-admission to amount st)
  evaluate-admission (protocol c fname) st h = rw append-nil (ground arith)
  evaluate-admission (asset_other asset fname) st h = rw append-nil
  evaluate-admission (self_call fname) st h = rw append-nil
  evaluate-admission create_contract st h = rw append-nil
  evaluate-admission (unknown c fname) st h = rw append-nil

module _ (h : Host) (self_addr : Address) (cfg : PolicyConfig) (now : ℕ) where
  open h use {Val}

  -- The spends that the transfers among the contexts ask for.
  abbrev pub requested : List (Context Val) → List SpendEntry
  requested [] = []
  requested (ctx ∷ ctxs) = call_spends now (parse_call h self_addr ctx cfg) ++ requested ctxs

  module _ (ledger : Ledger) where
    -- The flag of the loop is the conjunction of its verdicts.
    pub judge-all_passed :
        (contexts : List (Context Val)) (st : Staged) (passed : Bool)
        → let judged = judge h self_addr cfg ledger now contexts st passed in
          judged.all_passed ≡ (passed && all is_allowed judged.verdicts)
    unfolding judge
    judge-all_passed [] st passed = ground arith
    judge-all_passed (ctx ∷ ctxs) st passed =
        let (decision, st') = evaluate cfg ledger now (parse_call h self_addr ctx cfg) st in
        rw (judge-all_passed ctxs st' (passed && is_allowed decision))
          (and_assoc passed (is_allowed decision) _)

    module _ (cap_on : is_pos cfg.window_cap ≡ true) where
      judge-admission :
          (contexts : List (Context Val)) (st : Staged) (passed : Bool)
          → let judged = judge h self_addr cfg ledger now contexts st passed in
            all is_allowed judged.verdicts ≡ true
            → judged.staged.admission ≡ st.admission ++ requested contexts
      unfolding judge
      judge-admission [] st passed ok = rw append-nil
      judge-admission (ctx ∷ ctxs) st passed ok =
          let call = parse_call h self_addr ctx cfg in
          let (decision, st') = evaluate cfg ledger now call st in
          let (first, others) = and_true (is_allowed decision) _ ok in
          judge-admission ctxs st' (passed && is_allowed decision) others
          ∙ rw (evaluate-admission cfg ledger now cap_on call st first)
              (append_assoc st.admission (call_spends now call) (requested ctxs))

      -- With a global cap, a request whose verdicts are all `allowed` stages all its transfers.
      pub judged-admission :
          (contexts : List (Context Val))
          → let judged = judge h self_addr cfg ledger now contexts nothing_staged true in
            all is_allowed judged.verdicts ≡ true → judged.staged.admission ≡ requested contexts
      judged-admission contexts ok = judge-admission contexts nothing_staged true ok
