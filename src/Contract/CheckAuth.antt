-- ===== src/Contract/CheckAuth.antt =====
-- `__check_auth` of src/lib.rs: the key, the signature, the decision, and the window written back.
pub mod Effects
pub mod Inversion
use stellar_agent_guard_cont.Common.{
  ℕ, Bool, true, false, not, ◌&&◌, ◌||◌, Option, none, some, List, [], ◌∷◌, all, ltb, if◌then◌else◌,
}
use stellar_agent_guard_cont.Types.Policy.{Address, PolicyConfig}
use stellar_agent_guard_cont.Types.Error.{
  Error, not_initialized, no_policy, decision_invariant_violation,
}
use stellar_agent_guard_cont.Host.{Host, Context}
use stellar_agent_guard_cont.Window.Ledger.{Ledger, len}
use stellar_agent_guard_cont.Engine.Evaluate.{Decision, allowed, blocked}
use stellar_agent_guard_cont.Engine.Decide.{AccountState, is_allowed, decide}
use stellar_agent_guard_cont.Contract.Storage.{
  Storage, Env, Call, Outcome, done, trapped, pure, panic, gets, timestamp,
  current_contract_address, when, ◌>>=◌, ◌>>◌, save_ledger,
}
use stellar_agent_guard_cont.Contract.Snapshot.{
  AuthSnapshot, load_snapshot, ledger_has_recipient_entries, emit_window_merges, emit_verdicts,
  emit_all,
}

-- The error of the first blocked verdict.
abbrev pub first_error : List Decision → Option Error
first_error [] = none
first_error (allowed ∷ ds) = first_error ds
first_error (blocked e ∷ ds) = some e

-- Whether the window is written back after a passing request.
unfoldable pub saves_window : Bool → Ledger → Bool
unfolding len ledger_has_recipient_entries
saves_window window_persisted l =
    window_persisted || (ltb 0 (len l) || ledger_has_recipient_entries l)

-- `Err(error)`, or the panic that is never reached.
abbrev pub reject_with : Option Error → Call (Option Error)
reject_with (some e) = pure (some e)
reject_with none = panic decision_invariant_violation

-- Step 4: a passing request reports its merges and writes the window back.
unfoldable pub persist : Bool → Ledger → Call (Option Error)
persist window_persisted ledger = do
  emit_window_merges ledger.merges
  when (saves_window window_persisted ledger) (save_ledger ledger)
  pure none

abbrev pub conclude : List Decision → Bool → Ledger → Call (Option Error)
conclude verdicts window_persisted ledger =
    if all is_allowed verdicts
    then persist window_persisted ledger
    else reject_with (first_error verdicts)

module _ (h : Host) where
  open h use {Val, ed25519_verify}

  abbrev pub snapshot_state : AuthSnapshot → AccountState
  snapshot_state snap = record {
    admin_frozen = snap.admin_frozen;
    last_heartbeat = snap.last_heartbeat;
  }

  -- Steps 3 and 4, on a loaded snapshot.
  unfoldable pub authorize : AuthSnapshot → List (Context Val) → Call (Option Error)
  authorize snap contexts = do
    now ← timestamp
    self_addr ← current_contract_address
    let decided =
        decide h self_addr (some snap.policy) (snapshot_state snap) snap.ledger now contexts
    emit_verdicts h decided.0 contexts 0
    conclude decided.0 snap.window_persisted decided.1

  abbrev pub with_snapshot : Option AuthSnapshot → List (Context Val) → Call (Option Error)
  with_snapshot none contexts = emit_all h no_policy contexts 0 >> pure (some no_policy)
  with_snapshot (some snap) contexts = authorize snap contexts

  -- A signature that does not verify traps the frame.
  abbrev pub verify : ℕ → ℕ → ℕ → Call (Unit {0})
  verify agent message signature env s =
      if ed25519_verify agent message signature then done tt s else trapped

  abbrev pub with_agent : Option ℕ → ℕ → ℕ → List (Context Val) → Call (Option Error)
  with_agent none message signature contexts =
      emit_all h not_initialized contexts 0 >> pure (some not_initialized)
  with_agent (some agent) message signature contexts = do
    verify agent message signature
    snapshot ← gets load_snapshot
    with_snapshot snapshot contexts

  -- `__check_auth`: `none` is `Ok(())`.
  unfoldable pub check_auth : ℕ → ℕ → List (Context Val) → Call (Option Error)
  check_auth signature_payload signatures auth_contexts = do
    agent ← gets (λ s. s.agent_pubkey)
    with_agent agent signature_payload signatures auth_contexts
