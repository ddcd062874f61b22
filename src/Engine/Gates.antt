-- ===== src/Engine/Gates.antt =====
-- The verdicts of a whole request: the account's gates, then each call on what the calls before it staged.
use stellar_agent_guard_cont.Common.{
  ℕ, ◌+◌, ◌≤◌, ◌<◌, ◌≡◌, refl, sym, ap, ◌∙◌, ◌⊎◌, inl, inr, ◌↔◌, Bool, true, false, ◌&&◌, Option,
  none, some, List, [], ◌∷◌, length, all, ltb, arith, Bool-cases, Option-cases, and_true, both_true,
  ◌==◌, if◌then◌else◌,
}
use stellar_agent_guard_cont.Types.Policy.{Address, PolicyConfig, max_auth_contexts, expired}
use stellar_agent_guard_cont.Types.Error.{Error, heartbeat_expired, no_policy}
use stellar_agent_guard_cont.Host.{Host, Context}
use stellar_agent_guard_cont.Window.Ledger.{Ledger, prune}
use stellar_agent_guard_cont.Engine.Caps.{dms_health}
use stellar_agent_guard_cont.Engine.Parse.{parse_call}
use stellar_agent_guard_cont.Engine.Evaluate.{Staged, nothing_staged, evaluate}
use stellar_agent_guard_cont.Engine.Decide.{
  AccountState, account_error, prunes, is_allowed, judge, block_all, decide_contexts, decide,
}
use stellar_agent_guard_cont.Engine.Permit.{IsPermitted, evaluate_iff}

-- The account's gates: the heartbeat is not overdue, the policy is not paused, and the time lies in the
-- active interval. A bound that is 0 is not set, and a heartbeat at 0 never came.
pub record IsOpen (cfg : PolicyConfig) (state : AccountState) (now : ℕ) : Type 0 where
  pub alive :
      0 < cfg.dms_grace_secs
      → 0 < state.last_heartbeat
      → now ≤ state.last_heartbeat + cfg.dms_grace_secs
  pub running : cfg.paused ≡ false
  pub started : cfg.active_from ≤ now
  pub unfinished : 0 < cfg.active_until → now ≤ cfg.active_until

pub account_error_iff :
    (cfg : PolicyConfig) (state : AccountState) (now : ℕ)
    → (account_error cfg state now ≡ none) ↔ IsOpen cfg state now
unfolding account_error
account_error_iff cfg state now = (
  λ e. record {
    alive = λ on was. ground arith;
    running = ground arith;
    started = ground arith;
    unfinished = λ on. ground arith;
  },
  λ o.
      let a = o.alive in
      let r = o.running in let s = o.started in let u = o.unfinished in ground arith,
)

-- The read `dms_health` says `expired` exactly when the gate of `decide` blocks with
-- `heartbeat_expired`, or a grace time is set and no heartbeat ever came.
pub dms_health_iff :
    (cfg : PolicyConfig) (state : AccountState) (now : ℕ)
    → (dms_health now state.last_heartbeat cfg ≡ expired) ↔ (
        (account_error cfg state now ≡ some heartbeat_expired)
        ⊎ ((0 < cfg.dms_grace_secs) × (state.last_heartbeat ≡ 0)))
unfolding account_error dms_health
dms_health_iff cfg state now = (
  λ e. elim (Bool-cases (state.last_heartbeat == 0)) [
    | inl never ↦ inr (ground arith, ground arith)
    | inr came ↦ inl (ground arith)
  ],
  λ c. elim c [ inl gated ↦ ground arith | inr (on, never) ↦ ground arith ],
)

module _ (h : Host) (self_addr : Address) where
  open h use {Val}

  module _ (cfg : PolicyConfig) (ledger : Ledger) (now : ℕ) where
    -- Every call is permitted on what the calls before it staged.
    abbrev pub AllPermitted : List (Context Val) → Staged → Type 0
    AllPermitted [] st = Unit
    AllPermitted (ctx ∷ ctxs) st =
        let call = parse_call h self_addr ctx cfg in
        IsPermitted cfg ledger call st × AllPermitted ctxs (evaluate cfg ledger now call st).1

    judge_iff :
        (contexts : List (Context Val)) (st : Staged) (passed : Bool)
        → (all is_allowed (judge h self_addr cfg ledger now contexts st passed).verdicts ≡ true)
          ↔ AllPermitted contexts st
    unfolding judge
    judge_iff [] st passed = (λ e. tt, λ t. refl)
    judge_iff (ctx ∷ ctxs) st passed =
        let call = parse_call h self_addr ctx cfg in
        let (decision, st') = evaluate cfg ledger now call st in
        let here = evaluate_iff cfg ledger now call st in
        let rest = judge_iff ctxs st' (passed && is_allowed decision) in
        (
          λ e.
              let (first, others) = and_true (is_allowed decision) _ e in
              (here.0 first, rest.0 others),
          λ p. both_true (is_allowed decision) _ (here.1 p.0) (rest.1 p.1),
        )

    length-judge :
        (contexts : List (Context Val)) (st : Staged) (passed : Bool)
        → length (judge h self_addr cfg ledger now contexts st passed).verdicts ≡ length contexts
    unfolding judge
    length-judge [] st passed = refl
    length-judge (ctx ∷ ctxs) st passed =
        let (decision, st') = evaluate cfg ledger now (parse_call h self_addr ctx cfg) st in
        omega (arith, length-judge ctxs st' (passed && is_allowed decision))

  length-block_all :
      (e : Error) (contexts : List (Context Val))
      → length (block_all h e contexts) ≡ length contexts
  length-block_all e [] = refl
  length-block_all e (ctx ∷ ctxs) = omega (arith, length-block_all e ctxs)

  -- The ledger on which the calls are judged.
  abbrev pub judged_ledger : PolicyConfig → ℕ → Ledger → Ledger
  judged_ledger cfg now l = if prunes cfg then prune now cfg.window_secs l else l

  -- There is one verdict for each context, or a single one where there are too many contexts.
  pub length-decide :
      (policy : Option PolicyConfig) (state : AccountState) (l : Ledger) (now : ℕ)
      (contexts : List (Context Val))
      → length (decide h self_addr policy state l now contexts).0
        ≡ (if ltb max_auth_contexts (length contexts) then 1 else length contexts)
  unfolding decide decide_contexts
  length-decide none state l now contexts =
      ground
        (arith, length-block_all Error.admin_frozen contexts, length-block_all no_policy contexts)
  length-decide (some cfg) state l now contexts =
      elim (Option-cases (account_error cfg state now)) [
        | inl open_gate ↦ rw open_gate (
            ground (
              arith,
              length-block_all Error.admin_frozen contexts,
              length-judge cfg (judged_ledger cfg now l) now contexts nothing_staged true,
            ))
        | inr (e, gated) ↦ rw gated (
            ground
              (arith, length-block_all Error.admin_frozen contexts, length-block_all e contexts))
      ]

  -- What makes a request of at least one call admissible.
  pub record IsAdmissible (policy : Option PolicyConfig) (state : AccountState) (l : Ledger)
      (now : ℕ) (contexts : List (Context Val)) : Type 0 where
    pub few : length contexts ≤ max_auth_contexts
    pub unfrozen : state.admin_frozen ≡ false
    pub cfg : PolicyConfig
    pub installed : policy ≡ some cfg
    pub open_gates : IsOpen cfg state now
    pub permitted : AllPermitted cfg (judged_ledger cfg now l) now contexts nothing_staged

  decide_installed :
      (cfg : PolicyConfig) (state : AccountState) (l : Ledger) (now : ℕ)
      (contexts : List (Context Val))
      → length contexts ≤ max_auth_contexts
      → state.admin_frozen ≡ false
      → account_error cfg state now ≡ none
      → (decide h self_addr (some cfg) state l now contexts).0
        ≡ (judge h self_addr cfg
            (judged_ledger cfg now l)
            now
            contexts
            nothing_staged
            true).verdicts
  unfolding decide decide_contexts
  decide_installed cfg state l now contexts few unfrozen open_gate =
      let short : ltb max_auth_contexts (length contexts) ≡ false = ground arith in
      rw (short, open_gate, unfrozen)

  decide-IsAdmissible :
      (policy : Option PolicyConfig) (state : AccountState) (l : Ledger) (now : ℕ)
      (ctx : Context Val) (ctxs : List (Context Val))
      → all is_allowed (decide h self_addr policy state l now (ctx ∷ ctxs)).0 ≡ true
      → IsAdmissible policy state l now (ctx ∷ ctxs)
  unfolding decide
  decide-IsAdmissible none state l now ctx ctxs ok = absurd (ground arith)
  decide-IsAdmissible (some cfg) state l now ctx ctxs ok =
      let contexts = ctx ∷ ctxs in
      elim (Option-cases (account_error cfg state now)) [
        | inr (e, gated) ↦ absurd (ground arith)
        | inl open_gate ↦
            let few : length contexts ≤ max_auth_contexts = ground arith in
            let unfrozen : state.admin_frozen ≡ false = ground arith in
            let judged = decide_installed cfg state l now contexts few unfrozen open_gate in
            record {
              few = few;
              unfrozen = unfrozen;
              cfg = cfg;
              installed = refl;
              open_gates = (account_error_iff cfg state now).0 open_gate;
              permitted =
                  (judge_iff cfg (judged_ledger cfg now l) now contexts nothing_staged true).0
                    (sym (ap (all is_allowed) judged) ∙ ok);
            }
      ]

  -- A request of at least one call gets `allowed` for every call exactly when there are at most 64 calls,
  -- the account is not frozen, a policy is installed whose gates are open, and every call is permitted
  -- on the ledger, pruned where the policy has a window, and on what the calls before it staged.
  pub decide_iff :
      (policy : Option PolicyConfig) (state : AccountState) (l : Ledger) (now : ℕ)
      (ctx : Context Val) (ctxs : List (Context Val))
      → (all is_allowed (decide h self_addr policy state l now (ctx ∷ ctxs)).0 ≡ true)
        ↔ IsAdmissible policy state l now (ctx ∷ ctxs)
  decide_iff policy state l now ctx ctxs = (
    decide-IsAdmissible policy state l now ctx ctxs,
    λ a.
        let contexts = ctx ∷ ctxs in
        let judged =
          decide_installed a.cfg state l now contexts a.few a.unfrozen
            ((account_error_iff a.cfg state now).1 a.open_gates) in
        rw (a.installed, judged)
          ((judge_iff a.cfg (judged_ledger a.cfg now l) now contexts nothing_staged true).1
            a.permitted),
  )
