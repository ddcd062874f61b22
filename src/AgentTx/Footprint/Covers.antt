-- ===== src/AgentTx/Footprint/Covers.antt =====
-- The declared footprint against what the contract does: which of the guard's keys an authorization and
-- a heartbeat change, and which of them the tool declares for writing.
use stellar_agent_guard_cont.Common.{
  ℕ, ◌≡◌, refl, sym, subst, ap, ◌∙◌, ◌⊎◌, inl, inr, true, false, Option, none, some, List, arith,
}
use stellar_agent_guard_cont.Types.Policy.{Address}
use stellar_agent_guard_cont.Types.Error.{Error}
use stellar_agent_guard_cont.Types.Ledger.{WindowState}
use stellar_agent_guard_cont.Host.{Host, Context}
use stellar_agent_guard_cont.Window.Ledger.{Ledger, to_state}
use stellar_agent_guard_cont.Contract.Storage.{Storage, Env, Event, done}
use stellar_agent_guard_cont.Contract.Liveness
use stellar_agent_guard_cont.Contract.Snapshot.{AuthSnapshot, load_snapshot}
use stellar_agent_guard_cont.Contract.CheckAuth.{check_auth, saves_window}
use stellar_agent_guard_cont.Contract.CheckAuth.Effects.{written, decided}
use stellar_agent_guard_cont.Contract.CheckAuth.Inversion.{check_auth-Passed, check_auth_refused}
use stellar_agent_guard_cont.AgentTx.Call.{CallKind, transfer, heartbeat}
use stellar_agent_guard_cont.AgentTx.Footprint.{
  LedgerKey, contract_data, symbol_vec, persistent, guard_instance_key, key_eq, contains_key,
  guard_footprint,
}

-- The storage of the contract by keys: `DataKey` of src/types.rs.
pub data DataKey : Type 0 where
  initialized admin pending_admin agent_pubkey policy window last_heartbeat : DataKey
  admin_frozen auto_frozen_at policy_revision : DataKey

-- The ledger key under which a value is kept; the first four are kept in the instance.
abbrev pub data_ledger_key : DataKey → Address → LedgerKey
data_ledger_key policy guard = contract_data guard (symbol_vec "Policy") persistent
data_ledger_key window guard = contract_data guard (symbol_vec "Window") persistent
data_ledger_key last_heartbeat guard = contract_data guard (symbol_vec "LastHeartbeat") persistent
data_ledger_key admin_frozen guard = contract_data guard (symbol_vec "AdminFrozen") persistent
data_ledger_key auto_frozen_at guard = contract_data guard (symbol_vec "AutoFrozenAt") persistent
data_ledger_key policy_revision guard = contract_data guard (symbol_vec "PolicyRevision") persistent
data_ledger_key _ guard = guard_instance_key guard

abbrev pub Unchanged : DataKey → Storage → Storage → Type 0
Unchanged initialized s s' = s'.initialized ≡ s.initialized
Unchanged admin s s' = s'.admin ≡ s.admin
Unchanged pending_admin s s' = s'.pending_admin ≡ s.pending_admin
Unchanged agent_pubkey s s' = s'.agent_pubkey ≡ s.agent_pubkey
Unchanged policy s s' = s'.policy ≡ s.policy
Unchanged window s s' = s'.window ≡ s.window
Unchanged last_heartbeat s s' = s'.last_heartbeat ≡ s.last_heartbeat
Unchanged admin_frozen s s' = s'.admin_frozen ≡ s.admin_frozen
Unchanged auto_frozen_at s s' = s'.auto_frozen_at ≡ s.auto_frozen_at
Unchanged policy_revision s s' = s'.policy_revision ≡ s.policy_revision

-- Every key whose value changes is declared for writing by a transaction of this kind.
abbrev pub ChangesDeclared : CallKind → Address → Storage → Storage → Type 0
ChangesDeclared kind guard s s' =
    (key : DataKey)
    → Unchanged key s s'
      ⊎ (contains_key (guard_footprint guard kind).writes (data_ledger_key key guard) ≡ true)

window_declared :
    (guard : Address)
    → contains_key (guard_footprint guard transfer).writes (data_ledger_key window guard) ≡ true
unfolding contains_key guard_footprint key_eq
window_declared guard = ground arith

last_heartbeat_declared :
    (guard : Address)
    → contains_key (guard_footprint guard heartbeat).writes (data_ledger_key last_heartbeat guard)
      ≡ true
unfolding contains_key guard_footprint key_eq
last_heartbeat_declared guard = ground arith

window_undeclared :
    (guard : Address)
    → contains_key (guard_footprint guard heartbeat).writes (data_ledger_key window guard) ≡ false
unfolding contains_key guard_footprint key_eq
window_undeclared guard = ground arith

-- Of a storage only the window and the events were written.
window_only :
    (guard : Address) (s : Storage) (w : Option WindowState) (events : List Event)
    → ChangesDeclared transfer guard s (record s { window = w; events = events })
window_only guard s w events initialized = inl refl
window_only guard s w events admin = inl refl
window_only guard s w events pending_admin = inl refl
window_only guard s w events agent_pubkey = inl refl
window_only guard s w events policy = inl refl
window_only guard s w events window = inr (window_declared guard)
window_only guard s w events last_heartbeat = inl refl
window_only guard s w events admin_frozen = inl refl
window_only guard s w events auto_frozen_at = inl refl
window_only guard s w events policy_revision = inl refl

stored_is_written :
    (snap : AuthSnapshot) (s : Storage) (w : WindowState) (l : Ledger)
    → load_snapshot s ≡ some snap
    → s.window ≡ some w
    → written snap.window_persisted l s.window ≡ some (to_state l)
unfolding saves_window
stored_is_written snap s w l e stored = ground arith

module _ (h : Host) where
  open h use {Val}

  -- However an authorization of a spend ends, every key that it changes is one that the tool declares
  -- for writing.
  pub check_auth-ChangesDeclared :
      (message signature : ℕ) (contexts : List (Context Val)) (env : Env) (s s' : Storage)
      (guard : Address) (r : Option Error)
      → check_auth h message signature contexts env s ≡ done r s'
      → ChangesDeclared transfer guard s s'
  check_auth-ChangesDeclared message signature contexts env s s' guard none e =
      let (agent, _, _, passed) = check_auth-Passed h contexts env s s' message signature e in
      subst (ChangesDeclared transfer guard s) (sym passed.after)
        (window_only guard s _ passed.events)
  check_auth-ChangesDeclared message signature contexts env s s' guard (some x) e =
      let (events, after) = check_auth_refused h contexts env s s' x message signature e in
      subst (ChangesDeclared transfer guard s) (sym after) (window_only guard s s.window events)

  -- Every authorization that succeeds writes a stored window back, that of a heartbeat too; but a
  -- heartbeat's transaction does not declare the window for writing.
  pub heartbeat_window_undeclared :
      (message signature : ℕ) (contexts : List (Context Val)) (env : Env) (s s' : Storage)
      (guard : Address) (w : WindowState)
      → check_auth h message signature contexts env s ≡ done none s'
      → s.window ≡ some w
      → (snap : AuthSnapshot) × (load_snapshot s ≡ some snap)
        × (s'.window ≡ some (to_state (decided h snap env contexts).1))
        × (contains_key (guard_footprint guard heartbeat).writes (data_ledger_key window guard)
            ≡ false)
  heartbeat_window_undeclared message signature contexts env s s' guard w e stored =
      let (agent, _, _, passed) = check_auth-Passed h contexts env s s' message signature e in
      let saved =
        stored_is_written passed.snap s w (decided h passed.snap env contexts).1 passed.loaded
          stored in
      (
        passed.snap,
        passed.loaded,
        ap (λ (t : Storage). t.window) passed.after ∙ saved,
        window_undeclared guard,
      )

-- Whoever sends it, a heartbeat changes only what the tool declares for writing.
pub heartbeat-ChangesDeclared :
    (env : Env) (s s' : Storage) (guard : Address)
    → Liveness.heartbeat env s ≡ done tt s'
    → ChangesDeclared heartbeat guard s s'
unfolding Liveness.heartbeat
heartbeat-ChangesDeclared env s s' guard e last_heartbeat = inr (last_heartbeat_declared guard)
heartbeat-ChangesDeclared env s s' guard e initialized = inl (ground arith)
heartbeat-ChangesDeclared env s s' guard e admin = inl (ground arith)
heartbeat-ChangesDeclared env s s' guard e pending_admin = inl (ground arith)
heartbeat-ChangesDeclared env s s' guard e agent_pubkey = inl (ground arith)
heartbeat-ChangesDeclared env s s' guard e policy = inl (ground arith)
heartbeat-ChangesDeclared env s s' guard e window = inl (ground arith)
heartbeat-ChangesDeclared env s s' guard e admin_frozen = inl (ground arith)
heartbeat-ChangesDeclared env s s' guard e auto_frozen_at = inl (ground arith)
heartbeat-ChangesDeclared env s s' guard e policy_revision = inl (ground arith)
