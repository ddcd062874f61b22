-- ===== src/Contract/Unsaved.antt =====
-- Protocol calls after `reset_window`: with no stored window, a request without a transfer writes none,
-- so its calls are not counted.
use stellar_agent_guard_cont.Common.{
  ℕ, zero, suc, ◌≡◌, refl, sym, ap, ◌∙◌, inl, inr, Bool, true, false, ◌&&◌, Option, none, some,
  List, [], ◌∷◌, arith, Bool-cases, if◌then◌else◌,
}
use mathlib.Core.Option.{some-injective}
use stellar_agent_guard_cont.Types.Policy.{Address, PolicyConfig}
use stellar_agent_guard_cont.Types.Error.{Error}
use stellar_agent_guard_cont.Types.Ledger.{WindowState}
use stellar_agent_guard_cont.Host.{Host, Context}
use stellar_agent_guard_cont.Window.Single.{prune_entries}
use stellar_agent_guard_cont.Window.Ledger.{Ledger, empty, prune, admit_protocol_call, len}
use stellar_agent_guard_cont.Engine.Parse.{ParsedCall, asset_transfer, protocol, parse_call}
use stellar_agent_guard_cont.Engine.Evaluate.{Staged, nothing_staged, evaluate, evaluate_protocol}
use stellar_agent_guard_cont.Engine.Decide.{
  AccountState, prunes, is_allowed, judge, commit_spends, commit_recipients, commit_calls, commit,
  decide_contexts, decide,
}
use stellar_agent_guard_cont.Contract.Storage.{
  Storage, Env, Call, Event, done, load_window, loaded, ◌>>◌,
}
use stellar_agent_guard_cont.Contract.Snapshot.{
  AuthSnapshot, load_snapshot, snapshot_with, ledger_has_recipient_entries,
}
use stellar_agent_guard_cont.Contract.CheckAuth.{
  saves_window, snapshot_state, check_auth, with_agent, with_snapshot,
}
use stellar_agent_guard_cont.Contract.CheckAuth.Effects.{written, decided, authorize-passes}
use stellar_agent_guard_cont.Contract.CheckAuth.Inversion.{Passed, check_auth-Passed, verified}

abbrev pub IsNoTransfer : ParsedCall → Type 0
IsNoTransfer (asset_transfer asset to amount) = ⊥
IsNoTransfer _ = Unit

-- A ledger without spends.
abbrev HasNoSpends : Ledger → Type 0
HasNoSpends l = (l.entries ≡ []) × (l.recipients ≡ [])

abbrev StagesNoSpends : Staged → Type 0
StagesNoSpends st = (st.admission ≡ []) × (st.pending_recipients ≡ [])

evaluate-StagesNoSpends :
    (cfg : PolicyConfig) (l : Ledger) (now : ℕ) (call : ParsedCall) (st : Staged)
    → IsNoTransfer call
    → StagesNoSpends st
    → StagesNoSpends (evaluate cfg l now call st).1
unfolding evaluate evaluate_protocol
evaluate-StagesNoSpends cfg l now (asset_transfer asset to amount) st c h = absurd c
evaluate-StagesNoSpends cfg l now (protocol c fname) st t h = ground arith
evaluate-StagesNoSpends cfg l now _ st c h = h

commit_calls-HasNoSpends :
    (now n : ℕ) (l : Ledger) → HasNoSpends l → HasNoSpends (commit_calls now n l)
unfolding commit_calls admit_protocol_call
commit_calls-HasNoSpends now zero l h = h
commit_calls-HasNoSpends now (suc n) l h =
    commit_calls-HasNoSpends now n (admit_protocol_call now l) h

commit-HasNoSpends :
    (now : ℕ) (st : Staged) (l : Ledger)
    → StagesNoSpends st
    → HasNoSpends l
    → HasNoSpends (commit now st l)
unfolding commit commit_spends commit_recipients
commit-HasNoSpends now st l (spends, recipients) h =
    rw (spends, recipients) (commit_calls-HasNoSpends now st.pending_protocol_calls l h)

prune-HasNoSpends : (now window_secs : ℕ) → HasNoSpends (prune now window_secs empty)
unfolding prune empty prune_entries
prune-HasNoSpends now window_secs = (ground arith, refl)

empty-HasNoSpends : HasNoSpends empty
unfolding empty
empty-HasNoSpends = (refl, refl)

HasNoSpends-unsaved : (l : Ledger) → HasNoSpends l → saves_window false l ≡ false
unfolding saves_window len ledger_has_recipient_entries
HasNoSpends-unsaved l (entries, recipients) = rw (entries, recipients) (ground arith)

-- What was loaded with the snapshot.
snapshot_fields :
    (o : Option PolicyConfig) (s : Storage) (snap : AuthSnapshot)
    → snapshot_with o s ≡ some snap
    → (o ≡ some snap.policy)
      × (snap.ledger ≡ (load_window s).0)
      × (snap.window_persisted ≡ (load_window s).1)
snapshot_fields none s snap e = absurd (ground arith)
snapshot_fields (some cfg) s snap e =
    let same = some-injective _ _ e in
    (
      ap (λ (x : AuthSnapshot). some x.policy) same,
      sym (ap (λ (x : AuthSnapshot). x.ledger) same),
      sym (ap (λ (x : AuthSnapshot). x.window_persisted) same),
    )

-- The events are not part of a snapshot.
snapshot-events :
    (o : Option PolicyConfig) (s : Storage) (events : List Event)
    → snapshot_with o (record s { events = events }) ≡ snapshot_with o s
snapshot-events none s events = refl
snapshot-events (some cfg) s events = refl

module _ (h : Host) where
  open h use {Val, ed25519_verify}

  -- No context is a transfer of a listed asset.
  abbrev pub NoTransfers : Address → PolicyConfig → List (Context Val) → Type 0
  NoTransfers self_addr cfg [] = Unit
  NoTransfers self_addr cfg (ctx ∷ ctxs) =
      IsNoTransfer (parse_call h self_addr ctx cfg) × NoTransfers self_addr cfg ctxs

  module _ (self_addr : Address) (cfg : PolicyConfig) (now : ℕ) where
    judge-StagesNoSpends :
        (l : Ledger) (contexts : List (Context Val)) (st : Staged) (passed : Bool)
        → NoTransfers self_addr cfg contexts
        → StagesNoSpends st
        → StagesNoSpends (judge h self_addr cfg l now contexts st passed).staged
    unfolding judge
    judge-StagesNoSpends l [] st passed c n = n
    judge-StagesNoSpends l (ctx ∷ ctxs) st passed (c, cs) n =
        let call = parse_call h self_addr ctx cfg in
        let (decision, st') = evaluate cfg l now call st in
        judge-StagesNoSpends l ctxs st' (passed && is_allowed decision) cs
          (evaluate-StagesNoSpends cfg l now call st c n)

    decide_contexts-HasNoSpends :
        (contexts : List (Context Val))
        → NoTransfers self_addr cfg contexts
        → HasNoSpends (decide_contexts h self_addr cfg empty now contexts).1
    unfolding decide_contexts
    decide_contexts-HasNoSpends contexts c =
        let pruned = (if prunes cfg then prune now cfg.window_secs empty else empty) in
        let judged = judge h self_addr cfg pruned now contexts nothing_staged true in
        let none_before : HasNoSpends pruned = elim (Bool-cases (prunes cfg)) [
          | inl on ↦ rw on (prune-HasNoSpends now cfg.window_secs)
          | inr off ↦ rw off empty-HasNoSpends
        ] in
        let none_staged = judge-StagesNoSpends pruned contexts nothing_staged true c (refl, refl) in
        elim (Bool-cases judged.all_passed) [
          | inl ok ↦ rw ok (commit-HasNoSpends now judged.staged pruned none_staged none_before)
          | inr bad ↦ rw bad none_before
        ]

    decide-HasNoSpends :
        (state : AccountState) (contexts : List (Context Val))
        → NoTransfers self_addr cfg contexts
        → HasNoSpends (decide h self_addr (some cfg) state empty now contexts).1
    unfolding decide
    decide-HasNoSpends state contexts c =
        ground (arith, decide_contexts-HasNoSpends contexts c, empty-HasNoSpends)

  -- The request `n` times more, one after the other.
  abbrev pub check_auth_times : ℕ → ℕ → ℕ → List (Context Val) → Call (Option Error)
  check_auth_times zero message signature contexts = check_auth h message signature contexts
  check_auth_times (suc n) message signature contexts =
      check_auth h message signature contexts >> check_auth_times n message signature contexts

  module _ (message signature : ℕ) (contexts : List (Context Val)) (env : Env) where
    -- A passing request without transfers leaves a storage without a window as it was.
    unsaved :
        (s s' : Storage)
        → s.window ≡ none
        → ((cfg : PolicyConfig) → s.policy ≡ some cfg → NoTransfers env.self_addr cfg contexts)
        → Passed h contexts env s s'
        → (events : List Event) × (s' ≡ record s { events = events })
    unsaved s s' absent calls p =
        let (installed, ledger, persisted) = snapshot_fields s.policy s p.snap p.loaded in
        let no_window : load_window s ≡ (empty, false) = ap loaded absent in
        let nothing : p.snap.ledger ≡ empty = ledger ∙ ap (λ (x : Ledger × Bool). x.0) no_window in
        let fresh : p.snap.window_persisted ≡ false =
          persisted ∙ ap (λ (x : Ledger × Bool). x.1) no_window in
        let l' = (decided h p.snap env contexts).1 in
        let spends : HasNoSpends l' = rw nothing (
          decide-HasNoSpends env.self_addr p.snap.policy env.now (snapshot_state h p.snap) contexts
            (calls p.snap.policy installed)) in
        let kept : written p.snap.window_persisted l' s.window ≡ s.window =
          rw (fresh, HasNoSpends-unsaved l' spends) refl in
        (
          p.events,
          p.after
              ∙ ap (λ (w : Option WindowState). record s { window = w; events = p.events }) kept,
        )

    -- The same request passes again after a pass that changed the events only.
    passes_again :
        (s s' : Storage) (events : List Event)
        → s' ≡ record s { events = events }
        → check_auth h message signature contexts env s ≡ done none s'
        → (s'' : Storage) × (check_auth h message signature contexts env s' ≡ done none s'')
    unfolding check_auth
    passes_again s s' events same r =
        let (agent, known, good, p) = check_auth-Passed h contexts env s s' message signature r in
        let found : load_snapshot (record s { events = events }) ≡ some p.snap =
          snapshot-events s.policy s events ∙ p.loaded in
        let (published, effect) =
          authorize-passes h p.snap contexts env (record s { events = events }) p.allowed in
        let again : (with_agent h s.agent_pubkey message signature contexts env
              (record s { events = events })
            ≡ done none _) =
          ap
            (λ (o : Option ℕ).
              with_agent h o message signature contexts env (record s { events = events }))
            known
          ∙ verified h contexts env (record s { events = events }) agent message signature good
          ∙ ap
              (λ (o : Option AuthSnapshot).
                with_snapshot h o contexts env (record s { events = events }))
              found
          ∙ effect in
        (_, ap (λ (t : Storage). check_auth h message signature contexts env t) same ∙ again)

    -- With no stored window, as after `reset_window`, a signed request without a transfer that passes
    -- once passes any number of times in the same second, whatever the policy's limit of protocol calls.
    pub calls_unlimited :
        (n : ℕ) (s s' : Storage)
        → s.window ≡ none
        → ((cfg : PolicyConfig) → s.policy ≡ some cfg → NoTransfers env.self_addr cfg contexts)
        → check_auth h message signature contexts env s ≡ done none s'
        → (s'' : Storage) × (check_auth_times n message signature contexts env s ≡ done none s'')
    calls_unlimited zero s s' absent calls r = (s', r)
    calls_unlimited (suc n) s s' absent calls r =
        let (agent, known, good, p) = check_auth-Passed h contexts env s s' message signature r in
        let (events, same) = unsaved s s' absent calls p in
        let (s'', r') = passes_again s s' events same r in
        let (last, rest) =
          calls_unlimited n s' s'' (ap (λ (t : Storage). t.window) same ∙ absent)
            (λ cfg i. calls cfg (sym (ap (λ (t : Storage). t.policy) same) ∙ i)) r' in
        (last, ground (arith, rest))
