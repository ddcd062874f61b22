-- ===== src/Window/Calls.antt =====
-- The rolling count of protocol calls: what a well-formed one is, and that pruning keeps it.
pub mod Admit
use stellar_agent_guard_cont.Common.{
  ℕ, ◌+◌, ◌-◌, ◌≤◌, u32_max, ◌≡◌, refl, ap, ◌∙◌, inl, inr, true, false, List, [], ◌∷◌, ◌++◌, All,
  length, arith, Bool-cases, ◌==◌, ltb, if◌then◌else◌, u64_add, leb,
}
use stellar_agent_guard_cont.Types.Policy.{max_window_entries}
use stellar_agent_guard_cont.Types.Ledger.{ProtocolCallEntry}
use stellar_agent_guard_cont.Window.Protocol.{
  ProtocolCallLedger, is_expired_call, pop_expired_calls, prune_protocol_call_entries,
}

abbrev pub sum_calls : List ProtocolCallEntry → ℕ
sum_calls [] = 0
sum_calls (e ∷ es) = e.count + sum_calls es

abbrev pub live_count : ℕ → ℕ → ProtocolCallEntry → ℕ
live_count t window_secs e = if is_expired_call t window_secs e then 0 else e.count

-- The calls that are still counted at time `t`.
abbrev pub live_calls : ℕ → ℕ → List ProtocolCallEntry → ℕ
live_calls t window_secs [] = 0
live_calls t window_secs (e ∷ es) = live_count t window_secs e + live_calls t window_secs es

abbrev pub CallNotBefore : ℕ → ProtocolCallEntry → Type 0
CallNotBefore t e = t ≤ e.ts

abbrev pub CallNotAfter : ℕ → ProtocolCallEntry → Type 0
CallNotAfter t e = e.ts ≤ t

abbrev pub AreSortedCalls : List ProtocolCallEntry → Type 0
AreSortedCalls [] = Unit
AreSortedCalls (e ∷ es) = All (CallNotBefore e.ts) es × AreSortedCalls es

-- The invariant of the count at a time that no entry passes.
pub record IsCallWindow (now : ℕ) (l : ProtocolCallLedger) : Type 0 where
  pub sorted : AreSortedCalls l.entries
  pub times : All (CallNotAfter now) l.entries
  pub exact : l.total ≡ sum_calls l.entries
  pub bounded : sum_calls l.entries ≤ u32_max
  pub short : length l.entries ≤ max_window_entries

pub live_calls-le-sum :
    (t window_secs : ℕ) (es : List ProtocolCallEntry) → live_calls t window_secs es ≤ sum_calls es
live_calls-le-sum t window_secs [] = omega arith
live_calls-le-sum t window_secs (e ∷ es) = ground (arith, live_calls-le-sum t window_secs es)

-- From `es` to `l` some expired calls were dropped.
pub record DropsCalls (now window_secs : ℕ) (es : List ProtocolCallEntry) (l : ProtocolCallLedger)
    : Type 0 where
  pub sorted : AreSortedCalls l.entries
  pub times : All (CallNotAfter now) l.entries
  pub exact : l.total ≡ sum_calls l.entries
  pub less : sum_calls l.entries ≤ sum_calls es
  pub shorter : length l.entries ≤ length es
  pub live : (t : ℕ) → now ≤ t → live_calls t window_secs l.entries ≡ live_calls t window_secs es

module _ (now window_secs : ℕ) where
  expired_later :
      (t : ℕ) (e : ProtocolCallEntry)
      → now ≤ t
      → is_expired_call now window_secs e ≡ true
      → is_expired_call t window_secs e ≡ true
  expired_later t e later h = ground arith

  same_total : (a b : ℕ) → a + b - a ≡ b
  same_total a b = omega arith

  pop_expired_calls-DropsCalls :
      (es : List ProtocolCallEntry)
      → AreSortedCalls es
      → All (CallNotAfter now) es
      → DropsCalls now window_secs es (pop_expired_calls now window_secs (sum_calls es) es)
  unfolding pop_expired_calls
  pop_expired_calls-DropsCalls [] s t = record {
    sorted = tt;
    times = tt;
    exact = refl;
    less = omega arith;
    shorter = omega arith;
    live = λ u later. refl;
  }
  pop_expired_calls-DropsCalls (e ∷ es) (s, ss) (t, ts) =
      elim (Bool-cases (is_expired_call now window_secs e)) [
        | inl old ↦
            let d = pop_expired_calls-DropsCalls es ss ts in
            rw (old, same_total)
              (record {
                sorted = d.sorted;
                times = d.times;
                exact = d.exact;
                less = omega (arith, d.less);
                shorter = omega (arith, d.shorter);
                live = λ u later. rw (expired_later u e later old) (omega (arith, d.live u later));
              })
        | inr young ↦ rw young (record {
          sorted = (s, ss);
          times = (t, ts);
          exact = refl;
          less = omega arith;
          shorter = omega arith;
          live = λ u later. refl;
        })
      ]

  exact_calls :
      (l : ProtocolCallLedger)
      → l.total ≡ sum_calls l.entries
      → l ≡ record { total = sum_calls l.entries; entries = l.entries }
  exact_calls l e = ap (λ (n : ℕ). record { total = n; entries = l.entries }) e

  pub prune-DropsCalls :
      (l : ProtocolCallLedger)
      → IsCallWindow now l
      → DropsCalls now window_secs l.entries (prune_protocol_call_entries now window_secs l)
  unfolding prune_protocol_call_entries
  prune-DropsCalls l w = elim (Bool-cases (window_secs == 0)) [
    | inl endless ↦ rw endless (record {
      sorted = w.sorted;
      times = w.times;
      exact = w.exact;
      less = omega arith;
      shorter = omega arith;
      live = λ u later. refl;
    })
    | inr bounded ↦ rw (bounded, w.exact) (pop_expired_calls-DropsCalls l.entries w.sorted w.times)
  ]

  -- Pruning keeps the count well-formed.
  pub prune-IsCallWindow :
      (l : ProtocolCallLedger)
      → IsCallWindow now l
      → IsCallWindow now (prune_protocol_call_entries now window_secs l)
  prune-IsCallWindow l w =
      let d = prune-DropsCalls l w in
      record {
        sorted = d.sorted;
        times = d.times;
        exact = d.exact;
        bounded = omega (arith, d.less, w.bounded);
        short = omega (arith, d.shorter, w.short);
      }
