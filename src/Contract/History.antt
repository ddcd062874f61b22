-- ===== src/Contract/History.antt =====
-- The spend ceiling over any history: whatever authorizations and other entry points follow one another,
-- the spends that a window counts stay within its cap.
use stellar_agent_guard_cont.Common.{
  ℕ, ◌+◌, ◌≤◌, ℤ, pos_part, is_pos, ◌≡◌, refl, sym, ap, ◌∙◌, subst, ◌⊎◌, inl, inr, true, Option,
  none, some, List, [], ◌++◌, All, arith,
}
use stellar_agent_guard_cont.Types.Policy.{PolicyConfig}
use stellar_agent_guard_cont.Types.Error.{Error}
use stellar_agent_guard_cont.Types.Ledger.{SpendEntry, WindowState}
use stellar_agent_guard_cont.Host.{Host, Context}
use stellar_agent_guard_cont.Window.Single.{SingleLedger}
use stellar_agent_guard_cont.Window.Ledger.{Ledger, global_window, empty, to_state}
use stellar_agent_guard_cont.Window.Sums.{IsWindow, NotAfter, NotAfter-mono, sum_amounts}
use stellar_agent_guard_cont.Window.Admit.{live_sum, live_sum-append, live_sum-le-sum}
use stellar_agent_guard_cont.Engine.Requested.{requested}
use stellar_agent_guard_cont.Engine.Ceiling.{IsCurrent, Grants}
use stellar_agent_guard_cont.Contract.Storage.{Storage, Env, done, load_window, loaded}
use mathlib.Core.List.{append-nil}
use stellar_agent_guard_cont.Contract.CheckAuth.{check_auth}
use stellar_agent_guard_cont.Contract.CheckAuth.Inversion.{check_auth-Passed, check_auth_refused}
use stellar_agent_guard_cont.Contract.Reload.{from_state-to_state}
use stellar_agent_guard_cont.Contract.Operations.{
  Operation, run, terms, KeepsBudget, run-KeepsBudget,
}
use stellar_agent_guard_cont.Contract.Admin.{set_policy}
use stellar_agent_guard_cont.Contract.Install.{set_policy-window}
use stellar_agent_guard_cont.Contract.Granted.{stored_window, Passed-Grants}

module _ (h : Host) where
  open h use {Val}

  -- One call: it leaves a storage, and the spends that it granted at its time.
  pub data Step : Storage → Env → List SpendEntry → Storage → Type 0 where
    authorized :
        (cfg : PolicyConfig) (message signature : ℕ) (contexts : List (Context Val)) (env : Env)
        (s s' : Storage)
        → s.policy ≡ some cfg
        → check_auth h message signature contexts env s ≡ done none s'
        → Step s env (requested h env.self_addr cfg env.now contexts) s'
    refused :
        (message signature : ℕ) (contexts : List (Context Val)) (e : Error) (env : Env)
        (s s' : Storage)
        → check_auth h message signature contexts env s ≡ done (some e) s'
        → Step s env [] s'
    operated :
        (op : Operation) (env : Env) (s s' : Storage)
        → run h op env s ≡ done tt s'
        → Step s env [] s'
    edited :
        (old cfg : PolicyConfig) (env : Env) (s s' : Storage)
        → s.policy ≡ some old
        → terms (some cfg) ≡ terms (some old)
        → set_policy cfg env s ≡ done tt s'
        → Step s env [] s'

  -- A history from an empty window under a policy with width `w` and cap `ceiling`: calls at times that do
  -- not go back. The index holds the time of the last call and the spends granted so far.
  pub data History (w : ℕ) (ceiling : ℤ) : ℕ → List SpendEntry → Storage → Type 0 where
    start :
        (now : ℕ) (s : Storage)
        → terms s.policy ≡ some (w, ceiling)
        → (s.window ≡ none) ⊎ (s.window ≡ some (to_state empty))
        → History w ceiling now [] s
    next :
        {now : ℕ} {spends req : List SpendEntry} {s s' : Storage} (env : Env)
        → History w ceiling now spends s
        → now ≤ env.now
        → Step s env req s'
        → History w ceiling env.now (spends ++ req) s'

  IsCurrent-mono : (now later : ℕ) (l : Ledger) → now ≤ later → IsCurrent now l → IsCurrent later l
  IsCurrent-mono now later l le c = record {
    window = c.window;
    times = NotAfter-mono now later l.entries le c.times;
  }

  terms-eq :
      (w : ℕ) (ceiling : ℤ) (cfg : PolicyConfig)
      → terms (some cfg) ≡ some (w, ceiling)
      → (cfg.window_secs ≡ w) × (cfg.window_cap ≡ ceiling)
  terms-eq w ceiling cfg e = (cc, cc)

  -- What a history keeps: the policy's terms, and a stored window that counts every granted spend.
  record Covered (w : ℕ) (ceiling : ℤ) (now : ℕ) (spends : List SpendEntry) (s : Storage)
      : Type 0 where
    installed : terms s.policy ≡ some (w, ceiling)
    current : IsCurrent now (load_window s).0
    covers : (t : ℕ) → now ≤ t → live_sum t w spends ≤ live_sum t w (load_window s).0.entries
    capped : sum_amounts (load_window s).0.entries ≤ pos_part ceiling

  no_spends : (now : ℕ) → IsWindow (global_window empty) × All (NotAfter now) []
  unfolding empty
  no_spends now = (
    record { positive = tt; sorted = tt; exact = refl; bounded = omega arith; short = omega arith },
    tt,
  )

  empty-entries : empty.entries ≡ []
  unfolding empty
  empty-entries = refl

  -- A stored window that is empty is covered, with no spends.
  empty-Covered :
      (w : ℕ) (ceiling : ℤ) (now : ℕ) (s : Storage)
      → terms s.policy ≡ some (w, ceiling)
      → stored_window s ≡ global_window empty
      → Covered w ceiling now [] s
  empty-Covered w ceiling now s installed same =
      let nil : (load_window s).0.entries ≡ [] =
        ap (λ (l : SingleLedger). l.entries) same ∙ empty-entries in
      record {
        installed = installed;
        current = record { window = rw same (no_spends now).0; times = rw nil tt };
        covers = λ t later. omega arith;
        capped = rw nil (omega arith);
      }

  start-Covered :
      (w : ℕ) (ceiling : ℤ) (now : ℕ) (s : Storage)
      → terms s.policy ≡ some (w, ceiling)
      → (s.window ≡ none) ⊎ (s.window ≡ some (to_state empty))
      → Covered w ceiling now [] s
  start-Covered w ceiling now s installed (inl absent) =
      empty-Covered w ceiling now s installed
        (ap (λ (o : Option WindowState). global_window (loaded o).0) absent)
  start-Covered w ceiling now s installed (inr fresh) = empty-Covered w ceiling now s installed (
      ap (λ (o : Option WindowState). global_window (loaded o).0) fresh
      ∙ from_state-to_state empty (no_spends now).0)

  quiet-Covered :
      (w : ℕ) (ceiling : ℤ) (now later : ℕ) (spends : List SpendEntry) (s s' : Storage)
      → now ≤ later
      → KeepsBudget s s'
      → Covered w ceiling now spends s
      → Covered w ceiling later (spends ++ []) s'
  quiet-Covered w ceiling now later spends s s' le (window, same_terms) c =
      let same : (load_window s').0 ≡ (load_window s).0 =
        ap (λ (o : Option WindowState). (loaded o).0) window in
      rw append-nil (record {
        installed = same_terms ∙ c.installed;
        current = rw same (IsCurrent-mono now later (load_window s).0 le c.current);
        covers = λ t after. rw same (c.covers t (omega arith));
        capped = rw same c.capped;
      })

  granted-Covered :
      (w : ℕ) (ceiling : ℤ) (now later : ℕ) (spends req : List SpendEntry) (cfg : PolicyConfig)
      (s s' : Storage)
      → now ≤ later
      → s.policy ≡ some cfg
      → Covered w ceiling now spends s
      → Grants cfg later req (load_window s).0 (load_window s').0
      → s'.policy ≡ s.policy
      → Covered w ceiling later (spends ++ req) s'
  granted-Covered w ceiling now later spends req cfg s s' le is_cfg c g same =
      let (width, limit) = terms-eq w ceiling cfg (sym (ap terms is_cfg) ∙ c.installed) in
      record {
        installed = ap terms same ∙ c.installed;
        current = g.current;
        covers = λ t after.
            let before = c.covers t (omega arith) in
            let granted =
              subst
                (λ v.
                  live_sum t v (load_window s).0.entries + live_sum t v req
                  ≤ live_sum t v (load_window s').0.entries)
                width (g.covers t after) in
            omega (arith, live_sum-append t w spends req);
        capped = elim g.capped [
          | inl (kept, nothing) ↦ omega (arith, c.capped)
          | inr under ↦
              subst (λ (z : ℤ). sum_amounts (load_window s').0.entries ≤ pos_part z) limit under
        ];
      }

  Step-Covered :
      (w : ℕ) (ceiling : ℤ) (now : ℕ) (spends : List SpendEntry) {env : Env} {s s' : Storage}
      {req : List SpendEntry}
      → is_pos ceiling ≡ true
      → now ≤ env.now
      → Step s env req s'
      → Covered w ceiling now spends s
      → Covered w ceiling env.now (spends ++ req) s'
  Step-Covered w ceiling now spends on le
        (authorized cfg message signature contexts env s s' is_cfg r) c =
      let (width, limit) = terms-eq w ceiling cfg (sym (ap terms is_cfg) ∙ c.installed) in
      let (agent, key, good, passed) = check_auth-Passed h contexts env s s' message signature r in
      let (grants, same) =
        Passed-Grants h cfg contexts env s s' is_cfg (rw limit on)
          (IsCurrent-mono now env.now (load_window s).0 le c.current) passed in
      granted-Covered w ceiling now env.now spends (requested h env.self_addr cfg env.now contexts)
        cfg s s' le is_cfg c grants same
  Step-Covered w ceiling now spends on le (refused message signature contexts e env s s' r) c =
      let (events, after) = check_auth_refused h contexts env s s' e message signature r in
      quiet-Covered w ceiling now env.now spends s s' le
        (ap (λ (t : Storage). t.window) after, ap (λ (t : Storage). terms t.policy) after) c
  Step-Covered w ceiling now spends on le (operated op env s s' r) c =
      quiet-Covered w ceiling now env.now spends s s' le (run-KeepsBudget h op env s s' r) c
  Step-Covered w ceiling now spends on le (edited old cfg env s s' installed same r) c =
      let (window, policy) = set_policy-window cfg env s s' old installed r in
      quiet-Covered w ceiling now env.now spends s s' le
        (window, ap terms policy ∙ same ∙ sym (ap terms installed)) c

  History-Covered :
      (w : ℕ) (ceiling : ℤ) {now : ℕ} {spends : List SpendEntry} {s : Storage}
      → is_pos ceiling ≡ true
      → History w ceiling now spends s
      → Covered w ceiling now spends s
  History-Covered w ceiling on (start now s installed nothing) =
      start-Covered w ceiling now s installed nothing
  History-Covered w ceiling on (next {now = before_now} {spends = granted} env before le step) =
      Step-Covered w ceiling before_now granted on le step (History-Covered w ceiling on before)

  -- Under a policy with a positive window cap, from an empty window on, at any time after any sequence of
  -- authorizations, refusals, edits of the policy that keep the window's width and cap, and other entry
  -- points but `reset_window` and `revoke_policy`, the granted transfers that have not left the window sum
  -- up to at most the cap.
  pub hard_ceiling :
      (w : ℕ) (ceiling : ℤ) (now t : ℕ) (spends : List SpendEntry) (s : Storage)
      → is_pos ceiling ≡ true
      → History w ceiling now spends s
      → now ≤ t
      → live_sum t w spends ≤ pos_part ceiling
  hard_ceiling w ceiling now t spends s on history later =
      let c = History-Covered w ceiling on history in
      omega (arith, c.covers t later, c.capped, live_sum-le-sum t w (load_window s).0.entries)
