-- ===== src/Engine/Decide.antt =====
-- `decide` of src/engine.rs: account gates, one verdict for each context, and the commit of what was
-- staged.
use stellar_agent_guard_cont.Common.{
  ℕ, zero, suc, ◌-◌, ℤ, is_pos, Bool, true, false, not, ◌&&◌, ◌||◌, Option, none, some, List, [],
  ◌∷◌, is_empty, length, ltb, ◌==◌, if◌then◌else◌,
}
use stellar_agent_guard_cont.Types.Policy.{Address, PolicyConfig, max_auth_contexts}
use stellar_agent_guard_cont.Types.Error.{
  Error, too_many_auth_contexts, no_policy, heartbeat_expired, outside_active_window,
}
use stellar_agent_guard_cont.Types.Ledger.{SpendEntry}
use stellar_agent_guard_cont.Host.{Host, Context}
use stellar_agent_guard_cont.Window.Ledger.{
  Ledger, prune, admit, admit_for_recipient, admit_protocol_call,
}
use stellar_agent_guard_cont.Engine.Parse.{parse_call}
use stellar_agent_guard_cont.Engine.Evaluate.{
  Decision, allowed, blocked, Staged, nothing_staged, evaluate,
}

pub record AccountState : Type 0 where
  pub admin_frozen : Bool
  pub last_heartbeat : ℕ

-- The grace time has run out; a heartbeat time of 0 means that there was none.
abbrev pub grace_elapsed : ℕ → ℕ → ℕ → Bool
grace_elapsed grace last_heartbeat now =
    ltb 0 grace && not (last_heartbeat == 0) && ltb grace (now - last_heartbeat)

abbrev pub outside_window : PolicyConfig → ℕ → Bool
outside_window cfg now =
    not (cfg.active_from == 0) && ltb now cfg.active_from
    || not (cfg.active_until == 0) && ltb cfg.active_until now

unfoldable pub account_error : PolicyConfig → AccountState → ℕ → Option Error
account_error cfg state now =
    if grace_elapsed cfg.dms_grace_secs state.last_heartbeat now
    then some heartbeat_expired
    else if cfg.paused
    then some Error.paused
    else if outside_window cfg now
    then some outside_active_window
    else none

-- Whether the ledger is pruned before the contexts are judged.
abbrev pub prunes : PolicyConfig → Bool
prunes cfg =
    is_pos cfg.window_cap
    || not (is_empty cfg.recipient_window_caps)
    || ltb 0 cfg.protocol_calls_per_window

abbrev pub is_allowed : Decision → Bool
is_allowed allowed = true
is_allowed (blocked e) = false

-- `for e in admission.iter()`
unfoldable pub commit_spends : List SpendEntry → Ledger → Ledger
commit_spends [] l = l
commit_spends (e ∷ es) l = commit_spends es (admit e.ts e.amount l)

-- The two vectors of staged recipients, read side by side.
unfoldable pub commit_recipients : ℕ → List Address → List ℤ → Ledger → Ledger
commit_recipients now (a ∷ rs) (amount ∷ amounts) l =
    commit_recipients now rs amounts (admit_for_recipient now a amount l)
commit_recipients now _ _ l = l

unfoldable pub commit_calls : ℕ → ℕ → Ledger → Ledger
commit_calls now zero l = l
commit_calls now (suc n) l = commit_calls now n (admit_protocol_call now l)

unfoldable pub commit : ℕ → Staged → Ledger → Ledger
unfolding commit_spends commit_recipients commit_calls
commit now st l = commit_calls now st.pending_protocol_calls (
    commit_recipients now st.pending_recipients st.pending_recipient_amounts
      (commit_spends st.admission l))

-- What the loop over the contexts leaves.
pub record Judged : Type 0 where
  pub verdicts : List Decision
  pub staged : Staged
  pub all_passed : Bool

module _ (h : Host) where
  open h use {Val}

  abbrev pub block_all : Error → List (Context Val) → List Decision
  block_all e [] = []
  block_all e (ctx ∷ ctxs) = blocked e ∷ block_all e ctxs

  -- The loop over the contexts.
  unfoldable pub judge :
      Address → PolicyConfig → Ledger → ℕ → List (Context Val) → Staged → Bool → Judged
  judge self_addr cfg ledger now [] st passed = record {
    verdicts = [];
    staged = st;
    all_passed = passed;
  }
  judge self_addr cfg ledger now (ctx ∷ ctxs) st passed =
      let (decision, st') = evaluate cfg ledger now (parse_call h self_addr ctx cfg) st in
      let rest = judge self_addr cfg ledger now ctxs st' (passed && is_allowed decision) in
      record rest { verdicts = decision ∷ rest.verdicts }

  unfoldable pub decide_contexts :
      Address → PolicyConfig → Ledger → ℕ → List (Context Val) → List Decision × Ledger
  unfolding judge commit
  decide_contexts self_addr cfg ledger now contexts =
      let pruned = (if prunes cfg then prune now cfg.window_secs ledger else ledger) in
      let judged = judge self_addr cfg pruned now contexts nothing_staged true in
      (judged.verdicts, (if judged.all_passed then commit now judged.staged pruned else pruned))

  -- `decide`: the verdicts and the changed ledger.
  unfoldable pub decide :
      Address
      → Option PolicyConfig
      → AccountState
      → Ledger
      → ℕ
      → List (Context Val)
      → List Decision × Ledger
  unfolding decide_contexts
  decide self_addr policy state ledger now contexts =
      if ltb max_auth_contexts (length contexts)
      then (blocked too_many_auth_contexts ∷ [], ledger)
      else if state.admin_frozen
      then (block_all Error.admin_frozen contexts, ledger)
      else elim policy [
        | none ↦ (block_all no_policy contexts, ledger)
        | some cfg ↦ elim (account_error cfg state now) [
          | some e ↦ (block_all e contexts, ledger)
          | none ↦ decide_contexts self_addr cfg ledger now contexts
        ]
      ]
