-- ===== src/Contract/Granted.antt =====
-- What a passing authorization grants, from one stored window to the next.
use stellar_agent_guard_cont.Common.{
  ℕ, is_pos, ◌≡◌, sym, ap, ◌∙◌, subst, true, Option, some, List, all,
}
use stellar_agent_guard_cont.Types.Policy.{PolicyConfig}
use stellar_agent_guard_cont.Types.Ledger.{SpendEntry, WindowState}
use stellar_agent_guard_cont.Host.{Host, Context}
use stellar_agent_guard_cont.Window.Single.{SingleLedger}
use stellar_agent_guard_cont.Window.Ledger.{Ledger, global_window}
use stellar_agent_guard_cont.Engine.Requested.{requested}
use stellar_agent_guard_cont.Engine.Ceiling.{IsCurrent, Grants, decide-Grants}
use stellar_agent_guard_cont.Contract.Storage.{
  Storage, Env, load_window, loaded, is_frozen, heartbeat_at,
}
use mathlib.Core.Option.{some-injective}
use stellar_agent_guard_cont.Engine.Decide.{is_allowed}
use stellar_agent_guard_cont.Contract.Snapshot.{AuthSnapshot, load_snapshot, snapshot_with}
use stellar_agent_guard_cont.Contract.CheckAuth.{snapshot_state}
use stellar_agent_guard_cont.Contract.CheckAuth.Effects.{written, decided}
use stellar_agent_guard_cont.Contract.CheckAuth.Inversion.{Passed}
use stellar_agent_guard_cont.Contract.Reload.{written-reload}

-- The window that the next authorization loads, and its entries.
abbrev pub stored_window : Storage → SingleLedger
stored_window s = global_window (load_window s).0

-- A grant shows only the global window of the ledger that it leaves.
Grants-global :
    (cfg : PolicyConfig) (now : ℕ) (req : List SpendEntry) (l a b : Ledger)
    → global_window b ≡ global_window a
    → Grants cfg now req l a
    → Grants cfg now req l b
Grants-global cfg now req l a b same g =
    let entries : b.entries ≡ a.entries = ap (λ (w : SingleLedger). w.entries) same in
    record {
      current = record { window = rw same g.current.window; times = rw entries g.current.times };
      covers = λ t later. rw entries (g.covers t later);
      capped = rw entries g.capped;
    }

module _ (h : Host) where
  open h use {Val}

  -- The snapshot of a storage with this policy.
  abbrev pub snapshot_of : PolicyConfig → Storage → AuthSnapshot
  snapshot_of cfg s = record {
    policy = cfg;
    admin_frozen = is_frozen s;
    last_heartbeat = heartbeat_at s;
    window_persisted = (load_window s).1;
    ledger = (load_window s).0;
  }

  pub snapshot-eq :
      (cfg : PolicyConfig) (s : Storage) (snap : AuthSnapshot)
      → s.policy ≡ some cfg
      → load_snapshot s ≡ some snap
      → snap ≡ snapshot_of cfg s
  snapshot-eq cfg s snap installed found =
      some-injective _ _ (sym found ∙ ap (λ (o : Option PolicyConfig). snapshot_with o s) installed)

  -- A passing authorization grants its transfers, and keeps the policy.
  pub Passed-Grants :
      (cfg : PolicyConfig) (contexts : List (Context Val)) (env : Env) (s s' : Storage)
      → s.policy ≡ some cfg
      → is_pos cfg.window_cap ≡ true
      → IsCurrent env.now (load_window s).0
      → Passed h contexts env s s'
      → Grants cfg env.now
          (requested h env.self_addr cfg env.now contexts)
          (load_window s).0
          (load_window s').0
        × (s'.policy ≡ s.policy)
  Passed-Grants cfg contexts env s s' installed on current p =
      let snap = snapshot_of cfg s in
      let same = snapshot-eq cfg s p.snap installed p.loaded in
      let ok : all is_allowed (decided h snap env contexts).0 ≡ true =
        subst (λ (x : AuthSnapshot). all is_allowed (decided h x env contexts).0 ≡ true) same
          p.allowed in
      let l' = (decided h snap env contexts).1 in
      let grants =
        decide-Grants h env.self_addr cfg env.now (snapshot_state h snap) (load_window s).0 contexts
          on current ok in
      let window : s'.window ≡ written (load_window s).1 l' s.window =
        ap (λ (t : Storage). t.window) p.after
        ∙ ap
            (λ (x : AuthSnapshot). written x.window_persisted (decided h x env contexts).1 s.window)
            same in
      let reloaded : stored_window s' ≡ global_window l' =
        ap (λ (o : Option WindowState). global_window (loaded o).0) window
        ∙ written-reload l' s.window grants.current.window in
      (
        Grants-global cfg env.now (requested h env.self_addr cfg env.now contexts) (load_window s).0
            l' (load_window s').0 reloaded grants,
        ap (λ (t : Storage). t.policy) p.after,
      )
