-- ===== src/Contract/CheckAuth/Effects.antt =====
-- What `__check_auth` does to the storage, by how it ends.
use stellar_agent_guard_cont.Common.{
  ℕ, suc, ◌≡◌, refl, Bool, true, false, Option, none, some, List, [], ◌∷◌, all, arith,
  if◌then◌else◌,
}
use stellar_agent_guard_cont.Types.Error.{Error}
use stellar_agent_guard_cont.Types.Ledger.{WindowState}
use stellar_agent_guard_cont.Host.{Host, Context}
use stellar_agent_guard_cont.Window.Ledger.{Ledger, WindowMerge, to_state}
use stellar_agent_guard_cont.Engine.Evaluate.{Decision, allowed, blocked}
use stellar_agent_guard_cont.Engine.Decide.{is_allowed, decide}
use stellar_agent_guard_cont.Contract.Storage.{Storage, Env, Event, Call, done}
use stellar_agent_guard_cont.Contract.Snapshot.{
  AuthSnapshot, emit_window_merges, emit_verdicts, emit_all,
}
use stellar_agent_guard_cont.Contract.CheckAuth.{
  first_error, saves_window, persist, snapshot_state, authorize,
}

-- A call that only publishes events.
abbrev pub Publishes : Call (Unit {0}) → Type 0
Publishes m =
    (env : Env) (s : Storage)
    → (events : List Event) × (m env s ≡ done tt (record s { events = events }))

module _ (h : Host) where
  open h use {Val}

  pub emit_verdicts-Publishes :
      (ds : List Decision) (contexts : List (Context Val)) (i : ℕ)
      → Publishes (emit_verdicts h ds contexts i)
  unfolding emit_verdicts
  emit_verdicts-Publishes [] contexts i env s = (s.events, refl)
  emit_verdicts-Publishes (d ∷ ds) contexts i env s =
      emit_verdicts-Publishes ds contexts (suc i) env _

  pub emit_all-Publishes :
      (e : Error) (contexts : List (Context Val)) (i : ℕ) → Publishes (emit_all h e contexts i)
  unfolding emit_all
  emit_all-Publishes e [] i env s = (s.events, refl)
  emit_all-Publishes e (ctx ∷ ctxs) i env s = emit_all-Publishes e ctxs (suc i) env _

emit_window_merges-Publishes : (ms : List WindowMerge) → Publishes (emit_window_merges ms)
unfolding emit_window_merges
emit_window_merges-Publishes [] env s = (s.events, refl)
emit_window_merges-Publishes (m ∷ ms) env s = emit_window_merges-Publishes ms env _

-- The window after a passing request.
abbrev pub written : Bool → Ledger → Option WindowState → Option WindowState
written window_persisted l before =
    if saves_window window_persisted l then some (to_state l) else before

persist-effect :
    (window_persisted : Bool) (l : Ledger) (env : Env) (s : Storage)
    → (events : List Event) × (persist window_persisted l env s
        ≡ done none (record s { window = written window_persisted l s.window; events = events }))
unfolding persist
persist-effect window_persisted l env s =
    let (events, quiet) = emit_window_merges-Publishes l.merges env s in
    (events, ground (arith, quiet))

first_error-blocked :
    (ds : List Decision) → all is_allowed ds ≡ false → (e : Error) × (first_error ds ≡ some e)
first_error-blocked [] bad = cc
first_error-blocked (allowed ∷ ds) bad = first_error-blocked ds bad
first_error-blocked (blocked e ∷ ds) bad = (e, refl)

module _ (h : Host) where
  open h use {Val, ed25519_verify}

  -- The decision of an authorization on a snapshot.
  abbrev pub decided : AuthSnapshot → Env → List (Context Val) → List Decision × Ledger
  decided snap env contexts =
      decide h env.self_addr (some snap.policy) (snapshot_state h snap) snap.ledger env.now contexts

  module _ (snap : AuthSnapshot) (contexts : List (Context Val)) (env : Env) (s : Storage) where
    pub authorize-passes :
        all is_allowed (decided snap env contexts).0 ≡ true
        → (events : List Event) × (authorize h snap contexts env s
            ≡ done none (record s {
              window = written snap.window_persisted (decided snap env contexts).1 s.window;
              events = events;
            }))
    unfolding authorize
    authorize-passes ok =
        let verdicts = (decided snap env contexts).0 in
        let (published, quiet) = emit_verdicts-Publishes h verdicts contexts 0 env s in
        let (events, effect) =
          persist-effect snap.window_persisted (decided snap env contexts).1 env
            (record s { events = published }) in
        (events, ground (arith, quiet, ok, effect))

    pub authorize_blocked :
        all is_allowed (decided snap env contexts).0 ≡ false
        → (e : Error) × (events : List Event) × (first_error (decided snap env contexts).0 ≡ some e)
          × (authorize h snap contexts env s ≡ done (some e) (record s { events = events }))
    unfolding authorize
    authorize_blocked bad =
        let verdicts = (decided snap env contexts).0 in
        let (events, quiet) = emit_verdicts-Publishes h verdicts contexts 0 env s in
        let (e, first) = first_error-blocked verdicts bad in
        (e, events, first, ground (arith, quiet, bad, first))
