-- ===== src/Engine/Ceiling.antt =====
-- The window cap over one request: what `decide` grants, and that a blocked request grants nothing.
use stellar_agent_guard_cont.Common.{
  ℕ, ◌+◌, ◌≤◌, pos_part, is_pos, i128_max, ◌≡◌, refl, ap, ◌⊎◌, inl, inr, true, false, some, List,
  [], ◌∷◌, All, all, Bool-cases, Option-cases, arith, if◌then◌else◌, length, ltb,
}
use stellar_agent_guard_cont.Types.Policy.{Address, PolicyConfig, max_auth_contexts}
use stellar_agent_guard_cont.Types.Error.{Error}
use stellar_agent_guard_cont.Types.Ledger.{SpendEntry}
use stellar_agent_guard_cont.Host.{Host, Context}
use stellar_agent_guard_cont.Window.Ledger.{Ledger, global_window, prune}
use stellar_agent_guard_cont.Window.Sums.{IsWindow, NotAfter, sum_amounts}
use stellar_agent_guard_cont.Window.Prune.{
  prune_entries-IsWindow, prune_entries-All, sum-prune_entries-le,
}
use stellar_agent_guard_cont.Window.Admit.{live_sum}
use stellar_agent_guard_cont.Window.Expiry.{live_sum-prune_entries}
use stellar_agent_guard_cont.Engine.Evaluate.{Staged, nothing_staged}
use stellar_agent_guard_cont.Engine.Decide.{
  AccountState, account_error, is_allowed, prunes, judge, commit, decide_contexts, block_all,
  decide,
}
use stellar_agent_guard_cont.Engine.Spends.{IsStaged, judged-IsStaged}
use stellar_agent_guard_cont.Engine.Commit.{commit-Adds}
use stellar_agent_guard_cont.Engine.Requested.{requested, judge-all_passed, judged-admission}

-- The global window of a ledger at a time that no entry passes.
pub record IsCurrent (now : ℕ) (l : Ledger) : Type 0 where
  pub window : IsWindow (global_window l)
  pub times : All (NotAfter now) l.entries

-- From the ledger `l` to `l'` the spends `req` were granted at `now`.
pub record Grants (cfg : PolicyConfig) (now : ℕ) (req : List SpendEntry) (l l' : Ledger)
    : Type 0 where
  pub current : IsCurrent now l'
  pub covers :
      (t : ℕ)
      → now ≤ t
      → live_sum t cfg.window_secs l.entries + live_sum t cfg.window_secs req
        ≤ live_sum t cfg.window_secs l'.entries
  pub capped :
      (sum_amounts l'.entries ≤ sum_amounts l.entries) × (req ≡ [])
      ⊎ (sum_amounts l'.entries ≤ pos_part cfg.window_cap)

prune-IsCurrent :
    (now window_secs : ℕ) (l : Ledger) → IsCurrent now l → IsCurrent now (prune now window_secs l)
unfolding prune
prune-IsCurrent now window_secs l c = record {
  window = prune_entries-IsWindow now window_secs (global_window l) c.window;
  times = prune_entries-All now window_secs (global_window l) c.window (NotAfter now) c.times;
}

staged-Grants :
    (cfg : PolicyConfig) (now : ℕ) (l : Ledger) (st : Staged) (req : List SpendEntry)
    → IsCurrent now l
    → IsStaged cfg l now (sum_amounts l.entries) st
    → st.admission ≡ req
    → Grants cfg now req l (commit now st l)
staged-Grants cfg now l st req c s asked =
    let room : sum_amounts l.entries + sum_amounts st.admission ≤ i128_max = elim s.fits [
      | inl nothing ↦ rw nothing (omega (arith, c.window.bounded))
      | inr (under, range) ↦ range
    ] in
    let adds = commit-Adds now st l s.fresh c.window c.times room in
    rw (← asked) (record {
      current = record { window = adds.window; times = adds.times };
      covers = λ t later. adds.covers t cfg.window_secs;
      capped = elim s.fits [
        | inl nothing ↦ inl ((omega (arith, adds.sums, ap sum_amounts nothing)), nothing)
        | inr (under, range) ↦ inr (omega (arith, adds.sums))
      ];
    })

-- Granting after pruning is granting.
prune-Grants :
    (cfg : PolicyConfig) (now : ℕ) (l l' : Ledger) (req : List SpendEntry)
    → IsCurrent now l
    → Grants cfg now req (prune now cfg.window_secs l) l'
    → Grants cfg now req l l'
unfolding prune
prune-Grants cfg now l l' req c g =
    let less = sum-prune_entries-le now cfg.window_secs (global_window l) c.window in
    record {
      current = g.current;
      covers = λ t later.
          let same =
            live_sum-prune_entries now t cfg.window_secs later (global_window l) c.window in
          omega (arith, g.covers t later);
      capped = elim g.capped [
        | inl (kept, nothing) ↦ inl (omega arith, nothing)
        | inr under ↦ inr under
      ];
    }

nothing-Grants :
    (cfg : PolicyConfig) (now : ℕ) (l : Ledger) → IsCurrent now l → Grants cfg now [] l l
nothing-Grants cfg now l c = record {
  current = c;
  covers = λ t later. omega arith;
  capped = inl (omega arith, refl);
}

module _ (h : Host) (self_addr : Address) (cfg : PolicyConfig) (now : ℕ) where
  open h use {Val}

  decide_contexts-Grants :
      (l : Ledger) (contexts : List (Context Val))
      → is_pos cfg.window_cap ≡ true
      → IsCurrent now l
      → let (verdicts, l') = decide_contexts h self_addr cfg l now contexts in
        all is_allowed verdicts ≡ true
        → Grants cfg now (requested h self_addr cfg now contexts) l l'
  unfolding decide_contexts
  decide_contexts-Grants l contexts on c =
      let pruned = prune now cfg.window_secs l in
      let judged = judge h self_addr cfg pruned now contexts nothing_staged true in
      let current = prune-IsCurrent now cfg.window_secs l c in
      let passed = judge-all_passed h self_addr cfg now pruned contexts nothing_staged true in
      rw on (λ ok.
        rw (passed, ok)
          (prune-Grants cfg now l (commit now judged.staged pruned)
            (requested h self_addr cfg now contexts) c
            (staged-Grants cfg now pruned judged.staged (requested h self_addr cfg now contexts)
              current
              (judged-IsStaged h self_addr cfg pruned now (sum_amounts pruned.entries)
                current.window.exact contexts)
              (judged-admission h self_addr cfg now pruned on contexts ok))))

  block_all-passes :
      (e : Error) (contexts : List (Context Val))
      → all is_allowed (block_all h e contexts) ≡ true
      → contexts ≡ []
  block_all-passes e [] ok = refl
  block_all-passes e (ctx ∷ ctxs) ok = cc

  blocked-Grants :
      (e : Error) (l : Ledger) (contexts : List (Context Val))
      → IsCurrent now l
      → all is_allowed (block_all h e contexts) ≡ true
      → Grants cfg now (requested h self_addr cfg now contexts) l l
  blocked-Grants e l contexts c ok =
      rw (block_all-passes e contexts ok) (nothing-Grants cfg now l c)

  -- With a global cap, an up-to-date well-formed ledger and a verdict `allowed` for every context,
  -- `decide` leaves an up-to-date well-formed ledger that counts, now and at every later time, at
  -- least what it counted before together with the requested transfers; and its sum is within the
  -- cap, unless no transfer was requested, and then it has not grown.
  pub decide-Grants :
      (state : AccountState) (l : Ledger) (contexts : List (Context Val))
      → is_pos cfg.window_cap ≡ true
      → IsCurrent now l
      → all is_allowed (decide h self_addr (some cfg) state l now contexts).0 ≡ true
      → Grants cfg now
          (requested h self_addr cfg now contexts)
          l
          (decide h self_addr (some cfg) state l now contexts).1
  unfolding decide account_error
  decide-Grants state l contexts on c =
      elim (Bool-cases (ltb max_auth_contexts (length contexts))) [
        | inl long ↦ rw long (λ ok. absurd (cc))
        | inr short ↦ elim (Bool-cases state.admin_frozen) [
          | inl frozen ↦ rw (short, frozen) (blocked-Grants Error.admin_frozen l contexts c)
          | inr unfrozen ↦ elim (Option-cases (account_error cfg state now)) [
            | inr (e, gated) ↦ rw (short, unfrozen, gated) (blocked-Grants e l contexts c)
            | inl open_gate ↦
                rw (short, unfrozen, open_gate) (decide_contexts-Grants l contexts on c)
          ]
        ]
      ]

module _ (h : Host) (self_addr : Address) (now : ℕ) where
  open h use {Val}

  decide_contexts_blocked :
      (cfg : PolicyConfig) (l : Ledger) (contexts : List (Context Val))
      → let (verdicts, l') = decide_contexts h self_addr cfg l now contexts in
        all is_allowed verdicts ≡ false → (l' ≡ l) ⊎ (l' ≡ prune now cfg.window_secs l)
  unfolding decide_contexts
  decide_contexts_blocked cfg l contexts =
      let pruned = (if prunes cfg then prune now cfg.window_secs l else l) in
      let passed = judge-all_passed h self_addr cfg now pruned contexts nothing_staged true in
      λ bad.
        rw (passed, bad)
          (elim (Bool-cases (prunes cfg)) [
            | inl on ↦ rw on (inr refl)
            | inr off ↦ rw off (inl refl)
          ])

  -- A request with a blocked context grants nothing: the ledger is as before, or pruned.
  pub decide_blocked :
      (cfg : PolicyConfig) (state : AccountState) (l : Ledger) (contexts : List (Context Val))
      → all is_allowed (decide h self_addr (some cfg) state l now contexts).0 ≡ false
      → ((decide h self_addr (some cfg) state l now contexts).1 ≡ l)
        ⊎ ((decide h self_addr (some cfg) state l now contexts).1 ≡ prune now cfg.window_secs l)
  unfolding decide
  decide_blocked cfg state l contexts bad = ground (arith, decide_contexts_blocked cfg l contexts)
