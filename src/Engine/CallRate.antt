-- ===== src/Engine/CallRate.antt =====
-- The limit of protocol calls over one request: what is staged of them.
pub mod Granted
use stellar_agent_guard_cont.Common.{
  ℕ, zero, suc, ◌+◌, ◌≤◌, ◌<◌, ℤ, u32_max, u32_add, is_pos, ◌≡◌, refl, sym, ap, ◌∙◌, subst, ◌⊎◌,
  inl, inr, Bool, true, false, ◌&&◌, ◌||◌, Option, none, some, List, [], ◌∷◌, all, length, ltb,
  arith, Bool-cases, Option-cases, and_true, if◌then◌else◌,
}
use stellar_agent_guard_cont.Types.Policy.{Address, Symbol, PolicyConfig, max_auth_contexts}
use stellar_agent_guard_cont.Types.Error.{Error}
use stellar_agent_guard_cont.Types.Ledger.{SpendEntry}
use stellar_agent_guard_cont.Host.{Host, Context}
use stellar_agent_guard_cont.Window.Protocol.{ProtocolCallLedger}
use stellar_agent_guard_cont.Window.Ledger.{
  Ledger, call_window, prune, admit, admit_for_recipient, admit_protocol_call,
}
use stellar_agent_guard_cont.Window.Calls.{
  sum_calls, live_count, live_calls, IsCallWindow, prune-DropsCalls, prune-IsCallWindow,
}
use stellar_agent_guard_cont.Window.Calls.Admit.{call_at, AddsCalls, admit-AddsCalls}
use stellar_agent_guard_cont.Engine.Caps.{recipient_override_cap}
use stellar_agent_guard_cont.Engine.Parse.{
  ParsedCall, asset_transfer, asset_other, protocol, self_call, create_contract, unknown,
  parse_call,
}
use stellar_agent_guard_cont.Engine.Evaluate.{
  Decision, Staged, nothing_staged, staged_idx, stage_global, stage_recipient, evaluate_window,
  evaluate_transfer, evaluate_protocol, evaluate,
}
use stellar_agent_guard_cont.Engine.Decide.{
  AccountState, account_error, prunes, is_allowed, commit_spends, commit_recipients, commit_calls,
  commit, judge, block_all, decide_contexts, decide,
}
use stellar_agent_guard_cont.Engine.Requested.{judge-all_passed}

-- The protocol calls that a call asks for.
abbrev pub call_count : ParsedCall → ℕ
call_count (protocol c fname) = 1
call_count _ = 0

stage_recipient_calls :
    (recip_cap : Option ℤ) (to : Address) (amount : ℤ) (st : Staged)
    → (stage_recipient recip_cap to amount st).pending_protocol_calls ≡ st.pending_protocol_calls
stage_recipient_calls none to amount st = refl
stage_recipient_calls (some limit) to amount st =
    elim (Option-cases (staged_idx (some limit) to st)) [
      | inl first ↦ rw first refl
      | inr (i, again) ↦ rw again refl
    ]

module _ (cfg : PolicyConfig) (ledger : Ledger) (now : ℕ) (on : 0 < cfg.protocol_calls_per_window)
    (small : cfg.protocol_calls_per_window < u32_max) where
  evaluate_window_calls :
      (to : Address) (amount : ℤ) (st : Staged)
      → (evaluate_window cfg ledger now to amount st).1.pending_protocol_calls
        ≡ st.pending_protocol_calls
  unfolding evaluate_window
  evaluate_window_calls to amount st = ground (
    arith,
    stage_recipient_calls (recipient_override_cap cfg to) to amount
        (stage_global cfg now amount st),
  )

  -- What is staged fits the limit beside the ledger's count.
  abbrev pub FitsRate : Staged → Type 0
  FitsRate st =
      (st.pending_protocol_calls ≡ 0)
      ⊎ (ledger.protocol_call_total + st.pending_protocol_calls ≤ cfg.protocol_calls_per_window)

  Stages : ParsedCall → Staged → Staged → Type 0
  Stages call st st' =
      (st'.pending_protocol_calls ≡ st.pending_protocol_calls + call_count call) × FitsRate st'

  evaluate_protocol-Stages :
      (c : Address) (fname : Symbol) (st : Staged)
      → is_allowed (evaluate_protocol cfg ledger c fname st).0 ≡ true
      → Stages (protocol c fname) st (evaluate_protocol cfg ledger c fname st).1
  unfolding evaluate_protocol Stages
  evaluate_protocol-Stages c fname st ok = (ground arith, inr (ground arith))

  unchanged-Stages :
      (call : ParsedCall) (st st' : Staged)
      → call_count call ≡ 0
      → st'.pending_protocol_calls ≡ st.pending_protocol_calls
      → FitsRate st
      → Stages call st st'
  unfolding Stages
  unchanged-Stages call st st' none_asked same f = rw same (omega arith, f)

  evaluate-Stages :
      (call : ParsedCall) (st : Staged)
      → is_allowed (evaluate cfg ledger now call st).0 ≡ true
      → FitsRate st
      → Stages call st (evaluate cfg ledger now call st).1
  unfolding evaluate evaluate_transfer
  evaluate-Stages (protocol c fname) st ok f = evaluate_protocol-Stages c fname st ok
  evaluate-Stages (asset_transfer asset to amount) st ok f =
      unchanged-Stages (asset_transfer asset to amount) st
        (evaluate cfg ledger now (asset_transfer asset to amount) st).1 refl
        (ground (arith, evaluate_window_calls to amount st)) f
  evaluate-Stages (asset_other asset fname) st ok f =
      unchanged-Stages (asset_other asset fname) st st refl refl f
  evaluate-Stages (self_call fname) st ok f = unchanged-Stages (self_call fname) st st refl refl f
  evaluate-Stages create_contract st ok f = unchanged-Stages create_contract st st refl refl f
  evaluate-Stages (unknown c fname) st ok f = unchanged-Stages (unknown c fname) st st refl refl f

module _ (h : Host) (self_addr : Address) (cfg : PolicyConfig) where
  open h use {Val}

  -- How many of the contexts are protocol calls.
  abbrev pub requested_calls : List (Context Val) → ℕ
  requested_calls [] = 0
  requested_calls (ctx ∷ ctxs) = call_count (parse_call h self_addr ctx cfg) + requested_calls ctxs

module _ (h : Host) (self_addr : Address) (cfg : PolicyConfig) (now : ℕ)
    (on : 0 < cfg.protocol_calls_per_window) (small : cfg.protocol_calls_per_window < u32_max) where
  open h use {Val}

  -- A request whose verdicts are all `allowed` stages exactly its protocol calls, within the limit.
  pub judge-Stages :
      (ledger : Ledger) (contexts : List (Context Val)) (st : Staged) (passed : Bool)
      → FitsRate cfg ledger now on small st
      → all is_allowed (judge h self_addr cfg ledger now contexts st passed).verdicts ≡ true
      → let judged = judge h self_addr cfg ledger now contexts st passed in
        (judged.staged.pending_protocol_calls
          ≡ st.pending_protocol_calls + requested_calls h self_addr cfg contexts)
        × FitsRate cfg ledger now on small judged.staged
  unfolding judge Stages
  judge-Stages ledger [] st passed f ok = (omega arith, f)
  judge-Stages ledger (ctx ∷ ctxs) st passed f ok =
      let call = parse_call h self_addr ctx cfg in
      let (decision, st') = evaluate cfg ledger now call st in
      let (first, others) = and_true (is_allowed decision) _ ok in
      let (one, fits) = evaluate-Stages cfg ledger now on small call st first f in
      let (more, all_fit) =
        judge-Stages ledger ctxs st' (passed && is_allowed decision) fits others in
      (omega (arith, one, more), all_fit)
