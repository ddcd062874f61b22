-- ===== src/Contract/Snapshot.antt =====
-- What an authorization reads of the storage, in one load, and the event of each verdict.
use stellar_agent_guard_cont.Common.{
  ℕ, suc, Bool, Option, none, some, List, [], ◌∷◌, get_elem?, any, not, is_empty,
}
use stellar_agent_guard_cont.Types.Policy.{Address, Symbol, PolicyConfig}
use stellar_agent_guard_cont.Types.Error.{Error, reason}
use stellar_agent_guard_cont.Host.{Host, Context}
use stellar_agent_guard_cont.Window.Ledger.{Ledger, RecipientLedger, WindowMerge}
use stellar_agent_guard_cont.Engine.Evaluate.{Decision, allowed, blocked}
use stellar_agent_guard_cont.Contract.Storage.{
  Storage, Call, auth_checked, window_merged, pure, gets, publish, ◌>>=◌, ◌>>◌, revision,
  load_window, heartbeat_at, is_frozen,
}

pub record AuthSnapshot : Type 0 where
  pub policy : PolicyConfig
  pub admin_frozen : Bool
  pub last_heartbeat : ℕ
  pub window_persisted : Bool
  pub ledger : Ledger

abbrev pub snapshot_with : Option PolicyConfig → Storage → Option AuthSnapshot
snapshot_with none s = none
snapshot_with (some cfg) s = some (record {
  policy = cfg;
  admin_frozen = is_frozen s;
  last_heartbeat = heartbeat_at s;
  window_persisted = (load_window s).1;
  ledger = (load_window s).0;
})

-- `AuthSnapshot::load`: `none` where no policy is installed.
abbrev pub load_snapshot : Storage → Option AuthSnapshot
load_snapshot s = snapshot_with s.policy s

unfoldable pub ledger_has_recipient_entries : Ledger → Bool
ledger_has_recipient_entries l =
    any (λ (r : RecipientLedger). not (is_empty r.entries)) l.recipients

-- `emit_window_merge`, for each merge of the ledger.
unfoldable pub emit_window_merges : List WindowMerge → Call (Unit {0})
emit_window_merges [] = pure tt
emit_window_merges (m ∷ ms) =
    publish (window_merged m.kind m.merged_ts m.merged_value) >> emit_window_merges ms

module _ (h : Host) where
  open h use {Val}

  abbrev context_contract : Option (Context Val) → Option Address
  context_contract (some (Context.contract c fname args)) = some c
  context_contract _ = none

  abbrev context_fn : Option (Context Val) → Option Symbol
  context_fn (some (Context.contract c fname args)) = some fname
  context_fn _ = none

  abbrev result_of : Decision → Symbol
  result_of allowed = "allowed"
  result_of (blocked e) = "blocked"

  abbrev reason_of : Decision → Symbol
  reason_of allowed = ""
  reason_of (blocked e) = reason e

  -- `emit_auth`
  unfoldable pub emit_auth : Decision → Option (Context Val) → ℕ → Call (Unit {0})
  emit_auth d ctx index = do
    rev ← gets revision
    publish
        (auth_checked (result_of d) (reason_of d) (context_contract ctx) (context_fn ctx) index rev)

  -- One event for each verdict, from index `i` on.
  unfoldable pub emit_verdicts : List Decision → List (Context Val) → ℕ → Call (Unit {0})
  unfolding emit_auth
  emit_verdicts [] contexts i = pure tt
  emit_verdicts (d ∷ ds) contexts i =
      emit_auth d (get_elem? contexts i) i >> emit_verdicts ds contexts (suc i)

  -- One event for each context, all with the same error, from index `i` on.
  unfoldable pub emit_all : Error → List (Context Val) → ℕ → Call (Unit {0})
  unfolding emit_auth
  emit_all e [] i = pure tt
  emit_all e (ctx ∷ ctxs) i = emit_auth (blocked e) (some ctx) i >> emit_all e ctxs (suc i)
