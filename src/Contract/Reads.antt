-- ===== src/Contract/Reads.antt =====
-- The reads of src/lib.rs that need no authorization: the policy and its hash, health, status, and the
-- pre-flight checks.
use stellar_agent_guard_cont.Common.{
  ℕ, ℤ, is_pos, Bool, true, false, not, ◌||◌, Option, none, some, List, [], ◌∷◌, all, map, is_empty,
  if◌then◌else◌,
}
use stellar_agent_guard_cont.Types.Policy.{Address, Symbol, PolicyConfig, DmsHealthStatus, ok}
use stellar_agent_guard_cont.Types.Error.{no_policy, decision_invariant_violation, reason}
use stellar_agent_guard_cont.Host.{Host, Context}
use stellar_agent_guard_cont.Window.Ledger.{Ledger, prune}
use stellar_agent_guard_cont.Engine.Caps.{
  cap_metrics, effective_per_tx_cap, global_window_remaining, dms_health,
}
use stellar_agent_guard_cont.Engine.Parse.{transfer_symbol}
use stellar_agent_guard_cont.Engine.Evaluate.{Decision}
use stellar_agent_guard_cont.Engine.Decide.{is_allowed, grace_elapsed, outside_window, decide}
use stellar_agent_guard_cont.Contract.Storage.{
  Storage, Call, pure, panic, gets, timestamp, current_contract_address, ◌>>=◌, ◌>>◌, revision,
  load_window, heartbeat_at, is_frozen,
}
use stellar_agent_guard_cont.Contract.Snapshot.{
  AuthSnapshot, load_snapshot, emit_auth, emit_verdicts, emit_all,
}
use stellar_agent_guard_cont.Contract.CheckAuth.{snapshot_state}

pub data CheckResult : Type 0 where
  allowed : CheckResult
  blocked : Symbol → CheckResult

pub record CheckDetail : Type 0 where
  pub result : CheckResult
  pub remaining_window : Option ℤ
  pub per_tx_cap : Option ℤ
  pub effective_per_tx_cap : Option ℤ
  pub effective_window_cap : Option ℤ

pub record BatchTransfer : Type 0 where
  pub to : Address
  pub amount : ℤ

pub record BatchCheckResult : Type 0 where
  pub verdicts : List CheckResult
  pub admissible : Bool

pub record Status : Type 0 where
  pub has_policy : Bool
  pub policy_revision : ℕ
  pub admin_frozen : Bool
  pub heartbeat_expired : Bool
  pub last_heartbeat : ℕ
  pub now : ℕ
  pub paused : Bool
  pub window_remaining : Option ℤ
  pub outside_active_window : Bool

-- Whether `status` and `check_detailed` prune their copy of the ledger.
abbrev pub prunes_copy : PolicyConfig → Bool
prunes_copy cfg = is_pos cfg.window_cap || not (is_empty cfg.recipient_window_caps)

abbrev pub pruned_copy : PolicyConfig → ℕ → Ledger → Ledger
pruned_copy cfg now l = if prunes_copy cfg then prune now cfg.window_secs l else l

abbrev status_with : Option PolicyConfig → Storage → ℕ → Status
status_with none s now = record {
  has_policy = false;
  policy_revision = revision s;
  admin_frozen = is_frozen s;
  heartbeat_expired = grace_elapsed 0 (heartbeat_at s) now;
  last_heartbeat = heartbeat_at s;
  now = now;
  paused = false;
  window_remaining = none;
  outside_active_window = false;
}
status_with (some cfg) s now = record {
  has_policy = true;
  policy_revision = revision s;
  admin_frozen = is_frozen s;
  heartbeat_expired = grace_elapsed cfg.dms_grace_secs (heartbeat_at s) now;
  last_heartbeat = heartbeat_at s;
  now = now;
  paused = cfg.paused;
  window_remaining = global_window_remaining cfg (pruned_copy cfg now (load_window s).0);
  outside_active_window = outside_window cfg now;
}

unfoldable pub status : Call Status
status env s = gets (λ t. status_with t.policy t env.now) env s

abbrev health_with : Option PolicyConfig → ℕ → ℕ → DmsHealthStatus
health_with none last now = ok
health_with (some cfg) last now = dms_health now last cfg

-- The entry point `dms_health`.
unfoldable pub dms_health_read : Call DmsHealthStatus
dms_health_read env s = gets (λ t. health_with t.policy (heartbeat_at t) env.now) env s

-- SHA-256 of nothing, byte by byte.
abbrev pub no_policy_digest : List ℕ
no_policy_digest =
    0xe3 ∷ 0xb0 ∷ 0xc4 ∷ 0x42 ∷ 0x98 ∷ 0xfc ∷ 0x1c ∷ 0x14 ∷ 0x9a ∷ 0xfb ∷ 0xf4 ∷ 0xc8 ∷ 0x99 ∷ 0x6f
    ∷ 0xb9 ∷ 0x24 ∷ 0x27 ∷ 0xae ∷ 0x41 ∷ 0xe4 ∷ 0x64 ∷ 0x9b ∷ 0x93 ∷ 0x4c ∷ 0xa4 ∷ 0x95 ∷ 0x99
    ∷ 0x1b ∷ 0x78 ∷ 0x52 ∷ 0xb8 ∷ 0x55 ∷ []

unfoldable pub check_result : Decision → CheckResult
check_result Decision.allowed = allowed
check_result (Decision.blocked e) = blocked (reason e)

module _ (h : Host) where
  open h use {Val, address_val, i128_val, sha256, policy_xdr}

  abbrev hash_of : Option PolicyConfig → List ℕ
  hash_of none = no_policy_digest
  hash_of (some cfg) = sha256 (policy_xdr cfg)

  unfoldable pub policy_hash : Call (List ℕ)
  policy_hash = gets (λ s. hash_of s.policy)

  -- A `transfer` call; the source stands in for the sender, which is not read.
  unfoldable pub transfer_context : Address → Address → ℤ → Context Val
  transfer_context asset to amount =
      Context.contract asset transfer_symbol
        (address_val asset ∷ address_val to ∷ i128_val amount ∷ [])

  abbrev judge_first : List Decision → CheckDetail → Context Val → Call CheckDetail
  judge_first [] detail call = panic decision_invariant_violation
  judge_first (d ∷ ds) detail call =
      emit_auth h d (some call) 0 >> pure (record detail { result = check_result d })

  abbrev detail_with : Option AuthSnapshot → Address → Address → Context Val → Call CheckDetail
  detail_with none asset to call = do
    emit_auth h (Decision.blocked no_policy) (some call) 0
    pure (record {
      result = check_result (Decision.blocked no_policy);
      remaining_window = none;
      per_tx_cap = none;
      effective_per_tx_cap = none;
      effective_window_cap = none;
    })
  detail_with (some snap) asset to call = do
    now ← timestamp
    self_addr ← current_contract_address
    let ledger = pruned_copy snap.policy now snap.ledger
    let metrics = cap_metrics snap.policy ledger to
    let decided =
        decide h self_addr (some snap.policy) (snapshot_state h snap) ledger now (call ∷ [])
    let detail : CheckDetail = record {
      result = allowed;
      remaining_window = metrics.0;
      per_tx_cap = metrics.1;
      effective_per_tx_cap = effective_per_tx_cap snap.policy asset;
      effective_window_cap = metrics.2;
    }
    judge_first decided.0 detail call

  unfoldable pub check_detailed : Address → Address → ℤ → Call CheckDetail
  unfolding check_result
  check_detailed asset to amount = do
    snapshot ← gets load_snapshot
    detail_with snapshot asset to (transfer_context asset to amount)

  unfoldable pub check : Address → Address → ℤ → Call CheckResult
  check asset to amount = do detail ← check_detailed asset to amount; pure detail.result

  abbrev pub batch_contexts : Address → List BatchTransfer → List (Context Val)
  batch_contexts asset [] = []
  batch_contexts asset (t ∷ ts) = transfer_context asset t.to t.amount ∷ batch_contexts asset ts

  abbrev pub no_policy_results : List (Context Val) → List CheckResult
  no_policy_results [] = []
  no_policy_results (ctx ∷ ctxs) =
      check_result (Decision.blocked no_policy) ∷ no_policy_results ctxs

  abbrev pub batch_with : Option AuthSnapshot → List (Context Val) → Call BatchCheckResult
  batch_with none contexts = do
    emit_all h no_policy contexts 0
    pure (record { verdicts = no_policy_results contexts; admissible = false })
  batch_with (some snap) contexts = do
    now ← timestamp
    self_addr ← current_contract_address
    let decided =
        decide h self_addr (some snap.policy) (snapshot_state h snap) snap.ledger now contexts
    emit_verdicts h decided.0 contexts 0
    pure (record { verdicts = map check_result decided.0; admissible = all is_allowed decided.0 })

  unfoldable pub check_batch : Address → List BatchTransfer → Call BatchCheckResult
  unfolding check_result
  check_batch asset transfers = do
    snapshot ← gets load_snapshot
    batch_with snapshot (batch_contexts asset transfers)
