-- ===== src/Contract/CheckAuth/Inversion.antt =====
-- How `__check_auth` can have ended: what its result says of the key, the signature, the policy and the
-- verdicts.
use stellar_agent_guard_cont.Common.{
  ℕ, ◌≡◌, refl, sym, inl, inr, true, Option, none, some, List, all, arith, Bool-cases, ◌∙◌,
}
use stellar_agent_guard_cont.Types.Error.{Error, not_initialized, no_policy}
use stellar_agent_guard_cont.Host.{Host, Context}
use stellar_agent_guard_cont.Engine.Decide.{is_allowed}
use stellar_agent_guard_cont.Contract.Storage.{Storage, Env, Event, done}
use stellar_agent_guard_cont.Contract.Snapshot.{AuthSnapshot, load_snapshot}
use stellar_agent_guard_cont.Contract.CheckAuth.{with_snapshot, with_agent, check_auth}
use stellar_agent_guard_cont.Contract.CheckAuth.Effects.{
  written, decided, authorize-passes, authorize_blocked, emit_all-Publishes,
}

module _ (h : Host) where
  open h use {Val, ed25519_verify}

  -- The storage `s'` after a request that passed on the snapshot of `s`.
  pub record Passed (contexts : List (Context Val)) (env : Env) (s s' : Storage) : Type 0 where
    pub snap : AuthSnapshot
    pub loaded : load_snapshot s ≡ some snap
    pub allowed : all is_allowed (decided h snap env contexts).0 ≡ true
    pub events : List Event
    pub after : s' ≡ record s {
      window = written snap.window_persisted (decided h snap env contexts).1 s.window;
      events = events;
    }

  -- Behind a good signature stands the policy.
  pub verified :
      (contexts : List (Context Val)) (env : Env) (s : Storage) (agent message signature : ℕ)
      → ed25519_verify agent message signature ≡ true
      → with_agent h (some agent) message signature contexts env s
        ≡ with_snapshot h (load_snapshot s) contexts env s
  verified contexts env s agent message signature good = ground arith

  module _ (contexts : List (Context Val)) (env : Env) (s s' : Storage) where
    snapshot-Passed :
        (o : Option AuthSnapshot)
        → load_snapshot s ≡ o
        → with_snapshot h o contexts env s ≡ done none s'
        → Passed contexts env s s'
    snapshot-Passed none e r =
        let (events, quiet) = emit_all-Publishes h no_policy contexts 0 env s in
        absurd (ground (arith, quiet))
    snapshot-Passed (some snap) e r =
        elim (Bool-cases (all is_allowed (decided h snap env contexts).0)) [
          | inl ok ↦
              let (events, effect) = authorize-passes h snap contexts env s ok in
              record {
                snap = snap;
                loaded = e;
                allowed = ok;
                events = events;
                after = ground (arith, effect);
              }
          | inr bad ↦
              let (x, events, first, effect) = authorize_blocked h snap contexts env s bad in
              absurd (ground (arith, effect))
        ]

    agent-Passed :
        (o : Option ℕ) (message signature : ℕ)
        → with_agent h o message signature contexts env s ≡ done none s'
        → (agent : ℕ) × (o ≡ some agent)
          × (ed25519_verify agent message signature ≡ true)
          × Passed contexts env s s'
    agent-Passed none message signature r =
        let (events, quiet) = emit_all-Publishes h not_initialized contexts 0 env s in
        absurd (ground (arith, quiet))
    agent-Passed (some agent) message signature r =
        elim (Bool-cases (ed25519_verify agent message signature)) [
          | inl good ↦ (
            agent,
            refl,
            good,
            snapshot-Passed (load_snapshot s) refl
                (sym (verified contexts env s agent message signature good) ∙ r),
          )
          | inr bad ↦ absurd (ground arith)
        ]

    -- An authorization that succeeds was signed by the registered key, on an installed policy, and got
    -- a verdict `allowed` for every context; of the storage it changes the window and the events alone.
    pub check_auth-Passed :
        (message signature : ℕ)
        → check_auth h message signature contexts env s ≡ done none s'
        → (agent : ℕ) × (s.agent_pubkey ≡ some agent)
          × (ed25519_verify agent message signature ≡ true)
          × Passed contexts env s s'
    unfolding check_auth
    check_auth-Passed message signature r = agent-Passed s.agent_pubkey message signature r

  module _ (contexts : List (Context Val)) (env : Env) (s s' : Storage) (e : Error) where
    snapshot_refused :
        (o : Option AuthSnapshot)
        → with_snapshot h o contexts env s ≡ done (some e) s'
        → (events : List Event) × (s' ≡ record s { events = events })
    snapshot_refused none r =
        let (events, quiet) = emit_all-Publishes h no_policy contexts 0 env s in
        (events, ground (arith, quiet))
    snapshot_refused (some snap) r =
        elim (Bool-cases (all is_allowed (decided h snap env contexts).0)) [
          | inl ok ↦
              let (events, effect) = authorize-passes h snap contexts env s ok in
              absurd (ground (arith, effect))
          | inr bad ↦
              let (x, events, first, effect) = authorize_blocked h snap contexts env s bad in
              (events, ground (arith, effect))
        ]

    agent_refused :
        (o : Option ℕ) (message signature : ℕ)
        → with_agent h o message signature contexts env s ≡ done (some e) s'
        → (events : List Event) × (s' ≡ record s { events = events })
    agent_refused none message signature r =
        let (events, quiet) = emit_all-Publishes h not_initialized contexts 0 env s in
        (events, ground (arith, quiet))
    agent_refused (some agent) message signature r =
        elim (Bool-cases (ed25519_verify agent message signature)) [
          | inl good ↦
              snapshot_refused (load_snapshot s)
                (sym (verified contexts env s agent message signature good) ∙ r)
          | inr bad ↦ absurd (ground arith)
        ]

    -- An authorization that returns an error changes nothing but the events.
    pub check_auth_refused :
        (message signature : ℕ)
        → check_auth h message signature contexts env s ≡ done (some e) s'
        → (events : List Event) × (s' ≡ record s { events = events })
    unfolding check_auth
    check_auth_refused message signature r = agent_refused s.agent_pubkey message signature r
