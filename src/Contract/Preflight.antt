-- ===== src/Contract/Preflight.antt =====
-- The pre-flight check of a batch and the authorization of the same transfers come to one answer.
use stellar_agent_guard_cont.Common.{
  ℕ, ◌≡◌, sym, ap, ◌∙◌, inl, inr, ◌↔◌, true, false, Option, none, some, List, all, map, arith,
  Bool-cases,
}
use stellar_agent_guard_cont.Types.Policy.{Address}
use stellar_agent_guard_cont.Types.Error.{no_policy}
use stellar_agent_guard_cont.Host.{Host, Context}
use stellar_agent_guard_cont.Engine.Decide.{is_allowed}
use stellar_agent_guard_cont.Contract.Storage.{Storage, Env, Event, done}
use stellar_agent_guard_cont.Contract.Snapshot.{AuthSnapshot, load_snapshot}
use stellar_agent_guard_cont.Contract.CheckAuth.{check_auth, with_agent, with_snapshot}
use stellar_agent_guard_cont.Contract.CheckAuth.Effects.{
  decided, emit_all-Publishes, emit_verdicts-Publishes, authorize-passes, authorize_blocked,
}
use stellar_agent_guard_cont.Contract.CheckAuth.Inversion.{verified}
use stellar_agent_guard_cont.Contract.Reads.{
  BatchTransfer, BatchCheckResult, check_result, batch_contexts, no_policy_results, batch_with,
  check_batch,
}

module _ (h : Host) where
  open h use {Val, ed25519_verify}

  module _ (contexts : List (Context Val)) (env : Env) (s : Storage) where
    -- A pre-flight check publishes events only, and its answer is this one.
    batch-effect :
        (o : Option AuthSnapshot)
        → (r : BatchCheckResult) × (events : List Event) × (batch_with h o contexts env s
            ≡ done r (record s { events = events }))
          × ((r.admissible ≡ true)
              ↔ ((s' : Storage) × (with_snapshot h o contexts env s ≡ done none s')))
    batch-effect none =
        let (events, quiet) = emit_all-Publishes h no_policy contexts 0 env s in
        (
          record { verdicts = no_policy_results h contexts; admissible = false },
          events,
          ground (arith, quiet),
          (λ ok. absurd (ground arith), λ (s', passed). absurd (ground (arith, quiet))),
        )
    batch-effect (some snap) =
        let verdicts = (decided h snap env contexts).0 in
        let (events, quiet) = emit_verdicts-Publishes h verdicts contexts 0 env s in
        (
          record { verdicts = map check_result verdicts; admissible = all is_allowed verdicts },
          events,
          ground (arith, quiet),
          (
            λ ok.
                let (published, effect) = authorize-passes h snap contexts env s ok in (_, effect),
            λ (s', passed). elim (Bool-cases (all is_allowed verdicts)) [
              | inl ok ↦ ok
              | inr bad ↦
                  let (e, published, first, effect) = authorize_blocked h snap contexts env s bad in
                  absurd (ground (arith, effect))
            ],
          ),
        )

  -- With the registered key's signature on the same transfers, `check_batch` answers, changes nothing
  -- but the events, and says `admissible` exactly when `__check_auth` would succeed in the same state.
  pub check_batch-check_auth :
      (asset : Address) (transfers : List BatchTransfer) (env : Env) (s : Storage)
      (agent message signature : ℕ)
      → s.agent_pubkey ≡ some agent
      → ed25519_verify agent message signature ≡ true
      → (r : BatchCheckResult) × (events : List Event) × (check_batch h asset transfers env s
          ≡ done r (record s { events = events }))
        × ((r.admissible ≡ true) ↔ (
            (s' : Storage) × (check_auth h message signature
                (batch_contexts h asset transfers)
                env
                s
              ≡ done none s')))
  unfolding check_batch check_auth
  check_batch-check_auth asset transfers env s agent message signature known good =
      let contexts = batch_contexts h asset transfers in
      let (r, events, effect, agree) = batch-effect contexts env s (load_snapshot s) in
      let same : check_auth h message signature contexts env s
          ≡ with_snapshot h (load_snapshot s) contexts env s =
        ap (λ (o : Option ℕ). with_agent h o message signature contexts env s) known
        ∙ verified h contexts env s agent message signature good in
      (
        r,
        events,
        effect,
        (
          λ ok. let (s', passed) = agree.0 ok in (s', same ∙ passed),
          λ (s', passed). agree.1 (s', sym same ∙ passed),
        ),
      )
