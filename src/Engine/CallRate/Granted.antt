-- ===== src/Engine/CallRate/Granted.antt =====
-- The limit of protocol calls over one request: what `decide` grants of them.
use stellar_agent_guard_cont.Common.{
  ℕ, zero, suc, ◌+◌, ◌≤◌, ◌<◌, ℤ, u32_max, ◌≡◌, refl, ap, ◌∙◌, subst, ◌⊎◌, inl, inr, true, some,
  List, [], ◌∷◌, all, length, ltb, arith, Bool-cases, Option-cases,
}
use stellar_agent_guard_cont.Types.Policy.{Address, PolicyConfig, max_auth_contexts}
use stellar_agent_guard_cont.Types.Error.{Error}
use stellar_agent_guard_cont.Types.Ledger.{SpendEntry}
use stellar_agent_guard_cont.Host.{Host, Context}
use stellar_agent_guard_cont.Window.Protocol.{ProtocolCallLedger}
use stellar_agent_guard_cont.Window.Ledger.{
  Ledger, call_window, prune, admit, admit_for_recipient, admit_protocol_call,
}
use stellar_agent_guard_cont.Window.Calls.{
  sum_calls, live_count, live_calls, IsCallWindow, prune-DropsCalls, prune-IsCallWindow,
}
use stellar_agent_guard_cont.Window.Calls.Admit.{call_at, AddsCalls, admit-AddsCalls}
use stellar_agent_guard_cont.Engine.Evaluate.{Staged, nothing_staged}
use stellar_agent_guard_cont.Engine.Decide.{
  AccountState, account_error, prunes, is_allowed, commit_spends, commit_recipients, commit_calls,
  commit, judge, block_all, decide_contexts, decide,
}
use stellar_agent_guard_cont.Engine.Requested.{judge-all_passed}
use stellar_agent_guard_cont.Engine.CallRate.{requested_calls, judge-Stages}

-- The spends and the recipients leave the count of calls alone.
commit_spends_calls :
    (es : List SpendEntry) (l : Ledger) → call_window (commit_spends es l) ≡ call_window l
unfolding commit_spends admit
commit_spends_calls [] l = refl
commit_spends_calls (e ∷ es) l = commit_spends_calls es (admit e.ts e.amount l)

commit_recipients_calls :
    (now : ℕ) (rs : List Address) (amounts : List ℤ) (l : Ledger)
    → call_window (commit_recipients now rs amounts l) ≡ call_window l
unfolding commit_recipients admit_for_recipient
commit_recipients_calls now [] amounts l = refl
commit_recipients_calls now (a ∷ rs) [] l = refl
commit_recipients_calls now (a ∷ rs) (amount ∷ amounts) l =
    commit_recipients_calls now rs amounts (admit_for_recipient now a amount l)

commit_calls-AddsCalls :
    (now n : ℕ) (l : Ledger)
    → IsCallWindow now (call_window l)
    → sum_calls l.protocol_call_entries + n ≤ u32_max
    → AddsCalls now n (call_window l) (call_window (commit_calls now n l))
unfolding commit_calls admit_protocol_call
commit_calls-AddsCalls now zero l w room = record {
  window = w;
  sums = omega arith;
  covers = λ t v. ground arith;
}
commit_calls-AddsCalls now (suc n) l w room =
    let one = admit-AddsCalls now (call_window l) w (omega arith) in
    let rest =
      commit_calls-AddsCalls now n (admit_protocol_call now l) one.window
        (omega (arith, one.sums)) in
    record {
      window = rest.window;
      sums = omega (arith, one.sums, rest.sums);
      covers = λ t v. let first = one.covers t v in let others = rest.covers t v in ground arith;
    }

commit-AddsCalls :
    (now : ℕ) (st : Staged) (l : Ledger)
    → IsCallWindow now (call_window l)
    → sum_calls l.protocol_call_entries + st.pending_protocol_calls ≤ u32_max
    → AddsCalls now st.pending_protocol_calls (call_window l) (call_window (commit now st l))
unfolding commit
commit-AddsCalls now st l w room =
    let before =
      commit_recipients now st.pending_recipients st.pending_recipient_amounts
        (commit_spends st.admission l) in
    let same : call_window before ≡ call_window l =
      commit_recipients_calls now st.pending_recipients st.pending_recipient_amounts
        (commit_spends st.admission l)
      ∙ commit_spends_calls st.admission l in
    let entries = ap (λ (v : ProtocolCallLedger). v.entries) same in
    subst
      (λ (v : ProtocolCallLedger).
        AddsCalls now st.pending_protocol_calls v
          (call_window (commit_calls now st.pending_protocol_calls before)))
      same
      (commit_calls-AddsCalls now st.pending_protocol_calls before (rw same w) (rw entries room))

-- From the ledger `l` to `l'` the calls of `n` protocol calls were granted at `now`.
pub record GrantsCalls (cfg : PolicyConfig) (now n : ℕ) (l l' : Ledger) : Type 0 where
  pub current : IsCallWindow now (call_window l')
  pub covers :
      (t : ℕ)
      → now ≤ t
      → live_calls t cfg.window_secs l.protocol_call_entries
          + live_count t cfg.window_secs (call_at now n)
        ≤ live_calls t cfg.window_secs l'.protocol_call_entries
  pub capped :
      ((sum_calls l'.protocol_call_entries ≤ sum_calls l.protocol_call_entries) × (n ≡ 0))
      ⊎ (sum_calls l'.protocol_call_entries ≤ cfg.protocol_calls_per_window)

module _ (h : Host) (self_addr : Address) (cfg : PolicyConfig) (now : ℕ)
    (on : 0 < cfg.protocol_calls_per_window) (small : cfg.protocol_calls_per_window < u32_max) where
  open h use {Val}

  judged-GrantsCalls :
      (l : Ledger) (contexts : List (Context Val))
      → IsCallWindow now (call_window l)
      → let judged = judge h self_addr cfg l now contexts nothing_staged true in
        all is_allowed judged.verdicts ≡ true
        → GrantsCalls cfg now
            (requested_calls h self_addr cfg contexts)
            l
            (commit now judged.staged l)
  judged-GrantsCalls l contexts w ok =
      let judged = judge h self_addr cfg l now contexts nothing_staged true in
      let (asked, fits) =
        judge-Stages h self_addr cfg now on small l contexts nothing_staged true (inl refl) ok in
      let room : sum_calls l.protocol_call_entries + judged.staged.pending_protocol_calls
          ≤ u32_max =
        elim fits [ inl nothing ↦ omega (arith, w.bounded) | inr under ↦ omega (arith, w.exact) ] in
      let adds = commit-AddsCalls now judged.staged l w room in
      let exactly : judged.staged.pending_protocol_calls
          ≡ requested_calls h self_addr cfg contexts =
        omega (arith, asked) in
      rw (← exactly) (record {
        current = adds.window;
        covers = λ t later. adds.covers t cfg.window_secs;
        capped = elim fits [
          | inl nothing ↦ inl (omega (arith, adds.sums), nothing)
          | inr under ↦ inr (omega (arith, adds.sums, w.exact))
        ];
      })

  -- Granting after pruning is granting.
  prune-GrantsCalls :
      (l l' : Ledger) (n : ℕ)
      → IsCallWindow now (call_window l)
      → GrantsCalls cfg now n (prune now cfg.window_secs l) l'
      → GrantsCalls cfg now n l l'
  unfolding prune
  prune-GrantsCalls l l' n w g =
      let drops = prune-DropsCalls now cfg.window_secs (call_window l) w in
      record {
        current = g.current;
        covers = λ t later. omega (arith, g.covers t later, drops.live t later);
        capped = elim g.capped [
          | inl (kept, nothing) ↦ inl (omega (arith, drops.less), nothing)
          | inr under ↦ inr under
        ];
      }

  nothing-GrantsCalls : (l : Ledger) → IsCallWindow now (call_window l) → GrantsCalls cfg now 0 l l
  nothing-GrantsCalls l w = record {
    current = w;
    covers = λ t later. ground arith;
    capped = inl (omega arith, refl);
  }

  decide_contexts-GrantsCalls :
      (l : Ledger) (contexts : List (Context Val))
      → IsCallWindow now (call_window l)
      → all is_allowed (decide_contexts h self_addr cfg l now contexts).0 ≡ true
      → GrantsCalls cfg now
          (requested_calls h self_addr cfg contexts)
          l
          (decide_contexts h self_addr cfg l now contexts).1
  unfolding decide_contexts prune
  decide_contexts-GrantsCalls l contexts w =
      let pruned = prune now cfg.window_secs l in
      let prunes_it : prunes cfg ≡ true = ground arith in
      let passed = judge-all_passed h self_addr cfg now pruned contexts nothing_staged true in
      rw prunes_it (λ ok.
        rw (passed, ok)
          (prune-GrantsCalls l
            (commit now (judge h self_addr cfg pruned now contexts nothing_staged true).staged
              pruned)
            (requested_calls h self_addr cfg contexts) w
            (judged-GrantsCalls pruned contexts
              (prune-IsCallWindow now cfg.window_secs (call_window l) w) ok)))

  block_all_calls :
      (e : Error) (l : Ledger) (contexts : List (Context Val))
      → IsCallWindow now (call_window l)
      → all is_allowed (block_all h e contexts) ≡ true
      → GrantsCalls cfg now (requested_calls h self_addr cfg contexts) l l
  block_all_calls e l [] w ok = nothing-GrantsCalls l w
  block_all_calls e l (ctx ∷ ctxs) w ok = absurd (ground arith)

  -- With a limit of protocol calls below the largest `u32`, a well-formed count and a verdict `allowed`
  -- for every context, `decide` leaves a well-formed count that counts, now and at every later time, at
  -- least what it counted before together with the requested protocol calls; and its sum is within the
  -- limit, unless no protocol call was requested, and then it has not grown.
  pub decide-GrantsCalls :
      (state : AccountState) (l : Ledger) (contexts : List (Context Val))
      → IsCallWindow now (call_window l)
      → all is_allowed (decide h self_addr (some cfg) state l now contexts).0 ≡ true
      → GrantsCalls cfg now
          (requested_calls h self_addr cfg contexts)
          l
          (decide h self_addr (some cfg) state l now contexts).1
  unfolding decide account_error
  decide-GrantsCalls state l contexts w =
      elim (Bool-cases (ltb max_auth_contexts (length contexts))) [
        | inl long ↦ rw long (λ ok. absurd (cc))
        | inr short ↦ elim (Bool-cases state.admin_frozen) [
          | inl frozen ↦ rw (short, frozen) (block_all_calls Error.admin_frozen l contexts w)
          | inr unfrozen ↦ elim (Option-cases (account_error cfg state now)) [
            | inr (e, gated) ↦ rw (short, unfrozen, gated) (block_all_calls e l contexts w)
            | inl open_gate ↦
                rw (short, unfrozen, open_gate) (decide_contexts-GrantsCalls l contexts w)
          ]
        ]
      ]
