-- ===== src/Engine/Commit.antt =====
-- Committing what was staged: the global window takes every staged spend, and nothing else touches it.
use stellar_agent_guard_cont.Common.{
  ℕ, zero, suc, ◌+◌, ◌≤◌, ℤ, pos_part, i128_max, ◌≡◌, refl, subst, List, [], ◌∷◌, All, arith,
}
use stellar_agent_guard_cont.Types.Policy.{Address}
use stellar_agent_guard_cont.Types.Ledger.{SpendEntry}
use stellar_agent_guard_cont.Window.Single.{SingleLedger}
use stellar_agent_guard_cont.Window.Ledger.{
  Ledger, global_window, admit, admit_for_recipient, admit_protocol_call,
}
use stellar_agent_guard_cont.Window.Sums.{IsWindow, IsPositive, NotAfter, sum_amounts}
use stellar_agent_guard_cont.Window.Admit.{live_sum, admit_to_ledger-Admits}
use stellar_agent_guard_cont.Engine.Evaluate.{Staged}
use stellar_agent_guard_cont.Engine.Decide.{commit_spends, commit_recipients, commit_calls, commit}

abbrev pub IsFresh : ℕ → SpendEntry → Type 0
IsFresh now e = (e.ts ≡ now) × IsPositive e

-- From the window `l` to `l'` the spends `adm` were added at `now`, and no live amount was forgotten.
pub record Adds (now : ℕ) (adm : List SpendEntry) (l l' : SingleLedger) : Type 0 where
  pub window : IsWindow l'
  pub times : All (NotAfter now) l'.entries
  pub sums : sum_amounts l'.entries ≡ sum_amounts l.entries + sum_amounts adm
  pub covers :
      (t window_secs : ℕ)
      → live_sum t window_secs l.entries + live_sum t window_secs adm
        ≤ live_sum t window_secs l'.entries

admit-Adds :
    (e : SpendEntry) (l : Ledger)
    → IsPositive e
    → IsWindow (global_window l)
    → All (NotAfter e.ts) l.entries
    → sum_amounts l.entries + pos_part e.amount ≤ i128_max
    → Adds e.ts (e ∷ []) (global_window l) (global_window (admit e.ts e.amount l))
unfolding admit
admit-Adds e l p w t b =
    let (window, added) = admit_to_ledger-Admits e.ts e.amount (global_window l) w p t b in
    record {
      window = window;
      times = added.times;
      sums = omega (arith, added.sums);
      covers = λ s v. let kept = added.covers s v in omega arith;
    }

commit_spends-Adds :
    (now : ℕ) (adm : List SpendEntry) (l : Ledger)
    → All (IsFresh now) adm
    → IsWindow (global_window l)
    → All (NotAfter now) l.entries
    → sum_amounts l.entries + sum_amounts adm ≤ i128_max
    → Adds now adm (global_window l) (global_window (commit_spends adm l))
unfolding commit_spends
commit_spends-Adds now [] l f w t b = record {
  window = w;
  times = t;
  sums = omega arith;
  covers = λ s v. omega arith;
}
commit_spends-Adds now (e ∷ adm) l ((same, p), fs) w t b =
    let at_now : Adds now (e ∷ []) (global_window l) (global_window (admit e.ts e.amount l)) =
      subst (λ n. Adds n (e ∷ []) (global_window l) (global_window (admit e.ts e.amount l))) same
        (admit-Adds e l p w (rw same t) (omega arith)) in
    let rest =
      commit_spends-Adds now adm (admit e.ts e.amount l) fs at_now.window at_now.times
        (omega (arith, at_now.sums)) in
    record {
      window = rest.window;
      times = rest.times;
      sums = omega (arith, rest.sums, at_now.sums);
      covers = λ s v. omega (arith, rest.covers s v, at_now.covers s v);
    }

-- The recipients' windows and the protocol calls are apart from the global window.
commit_recipients-global :
    (now : ℕ) (rs : List Address) (amounts : List ℤ) (l : Ledger)
    → global_window (commit_recipients now rs amounts l) ≡ global_window l
unfolding commit_recipients admit_for_recipient
commit_recipients-global now [] amounts l = refl
commit_recipients-global now (a ∷ rs) [] l = refl
commit_recipients-global now (a ∷ rs) (amount ∷ amounts) l =
    commit_recipients-global now rs amounts (admit_for_recipient now a amount l)

commit_calls-global :
    (now n : ℕ) (l : Ledger) → global_window (commit_calls now n l) ≡ global_window l
unfolding commit_calls admit_protocol_call
commit_calls-global now zero l = refl
commit_calls-global now (suc n) l = commit_calls-global now n (admit_protocol_call now l)

-- A commit adds exactly the staged spends to the global window.
pub commit-Adds :
    (now : ℕ) (st : Staged) (l : Ledger)
    → All (IsFresh now) st.admission
    → IsWindow (global_window l)
    → All (NotAfter now) l.entries
    → sum_amounts l.entries + sum_amounts st.admission ≤ i128_max
    → Adds now st.admission (global_window l) (global_window (commit now st l))
unfolding commit
commit-Adds now st l f w t b =
    rw (commit_calls-global, commit_recipients-global)
      (commit_spends-Adds now st.admission l f w t b)
