-- ===== src/Window/Prune.antt =====
-- Pruning a spend window keeps exactly the entries that are live, and an exact total.
use stellar_agent_guard_cont.Common.{
  ℕ, zero, suc, ◌≤◌, pos, i128_max, saturating_sub-pos, ◌≡◌, ◌≢◌, refl, ap, inl, inr, true, false,
  List, [], ◌∷◌, All, length, arith, ◌==◌, ◌||◌, Bool-cases, ==_iff, length-eq-zero, if◌then◌else◌,
}
use stellar_agent_guard_cont.Types.Policy.{max_window_entries}
use stellar_agent_guard_cont.Types.Ledger.{SpendEntry}
use stellar_agent_guard_cont.Window.Single.{
  SingleLedger, is_expired, pop_front, pop_expired, prune_entries,
}
use stellar_agent_guard_cont.Window.Sums.{
  IsWindow, IsPositive, IsSorted, NotBefore, magnitude, sum_amounts, amount-magnitude,
}
use stellar_agent_guard_cont.Window.Search.{ExpiredBefore, LiveFrom, expired_prefix-Boundary}

-- The window that the total stands for.
abbrev pub exact_window : List SpendEntry → SingleLedger
exact_window es = record { total = pos (sum_amounts es); entries = es }

module _ (now window_secs : ℕ) where
  -- The specification of pruning: a filter, with no search and no order.
  abbrev pub live_entries : List SpendEntry → List SpendEntry
  live_entries [] = []
  live_entries (e ∷ es) =
      let rest = live_entries es in if is_expired now window_secs e then rest else e ∷ rest

  pub live_entries-All {κ} :
      (P : SpendEntry → Type κ) (es : List SpendEntry) → All P es → All P (live_entries es)
  live_entries-All P [] h = tt
  live_entries-All P (e ∷ es) (h, hs) = elim (Bool-cases (is_expired now window_secs e)) [
    | inl old ↦ rw old (live_entries-All P es hs)
    | inr young ↦ rw young (h, live_entries-All P es hs)
  ]

  pub live_entries-IsSorted : (es : List SpendEntry) → IsSorted es → IsSorted (live_entries es)
  live_entries-IsSorted [] h = tt
  live_entries-IsSorted (e ∷ es) (h, hs) = elim (Bool-cases (is_expired now window_secs e)) [
    | inl old ↦ rw old (live_entries-IsSorted es hs)
    | inr young ↦ rw young (live_entries-All (NotBefore e.ts) es h, live_entries-IsSorted es hs)
  ]

  pub sum-live_entries-le : (es : List SpendEntry) → sum_amounts (live_entries es) ≤ sum_amounts es
  sum-live_entries-le [] = omega arith
  sum-live_entries-le (e ∷ es) = ground (arith, sum-live_entries-le es)

  pub length-live_entries-le : (es : List SpendEntry) → length (live_entries es) ≤ length es
  length-live_entries-le [] = omega arith
  length-live_entries-le (e ∷ es) = ground (arith, length-live_entries-le es)

  all_live : (es : List SpendEntry) → LiveFrom now window_secs es 0 → live_entries es ≡ es
  all_live [] h = refl
  all_live (e ∷ es) h =
      rw (h 0 e refl (omega arith))
        (ap (λ xs. e ∷ xs) (all_live es (λ i a at le. h (suc i) a at (omega arith))))

  -- `low` pops from the front of a window leave its live entries.
  pop_expired-live :
      (low : ℕ) (es : List SpendEntry)
      → All IsPositive es
      → sum_amounts es ≤ i128_max
      → low ≤ length es
      → ExpiredBefore now window_secs es low
      → LiveFrom now window_secs es low
      → pop_expired low (exact_window es) ≡ exact_window (live_entries es)
  unfolding pop_expired
  pop_expired-live zero es p b le before after = rw (all_live es after)
  pop_expired-live (suc low) [] p b le before after = absurd (omega arith)
  pop_expired-live (suc low) (e ∷ es) (p, ps) b le before after =
      let step : pop_front (exact_window (e ∷ es)) ≡ exact_window es =
        rw
          (
            amount-magnitude e p,
            saturating_sub-pos (sum_amounts (e ∷ es)) (magnitude e) (omega arith) b,
          )
          (ground arith) in
      rw (step, before 0 e refl (omega arith))
        (pop_expired-live low es ps (omega arith) (omega arith)
          (λ i a at lt. before (suc i) a at (omega arith))
          (λ i a at le. after (suc i) a at (omega arith)))

  all_expired :
      (es : List SpendEntry) → ExpiredBefore now window_secs es (length es) → live_entries es ≡ []
  all_expired [] h = refl
  all_expired (e ∷ es) h =
      rw (h 0 e refl (omega arith)) (all_expired es (λ i a at lt. h (suc i) a at (omega arith)))

pub window-exact : (l : SingleLedger) → IsWindow l → l ≡ exact_window l.entries
window-exact l w = let e = w.exact in ground arith

module _ (now window_secs : ℕ) (es : List SpendEntry) where
  prune_entries-exact :
      All IsPositive es
      → IsSorted es
      → sum_amounts es ≤ i128_max
      → window_secs ≢ 0
      → prune_entries now window_secs (exact_window es)
        ≡ exact_window (live_entries now window_secs es)
  unfolding prune_entries
  prune_entries-exact p s b w = elim (Bool-cases (length es == 0)) [
    | inl nothing ↦
        let nil : es ≡ [] = length-eq-zero es ((==_iff _ _).0 nothing) in
        rw (nothing, or_true) (rw nil)
    | inr something ↦
        let (low, found, in_range, before, after) =
          expired_prefix-Boundary now window_secs es s (suc (length es)) 0 (length es) (omega arith)
            (omega arith) (omega arith) (λ i e at lt. absurd (omega arith)) (beyond es) in
        rw (ne_zero window_secs w, something, found)
          (elim (Bool-cases (low == length es)) [
            | inl every ↦ rw every (rw (all_expired now window_secs es (ends low every before)))
            | inr some_live ↦
                rw some_live (pop_expired-live now window_secs low es p b in_range before after)
          ])
  ]
    where
      or_true : (window_secs == 0 || true) ≡ true
      or_true = ground arith

      ne_zero : (n : ℕ) → n ≢ 0 → (n == 0) ≡ false
      ne_zero n h = ground arith

      beyond : (xs : List SpendEntry) → LiveFrom now window_secs xs (length xs)
      beyond [] i e at le = cc
      beyond (x ∷ xs) zero e at le = absurd (omega arith)
      beyond (x ∷ xs) (suc i) e at le = beyond xs i e at (omega arith)

      ends :
          (low : ℕ)
          → (low == length es) ≡ true
          → ExpiredBefore now window_secs es low
          → ExpiredBefore now window_secs es (length es)
      ends low e before = let same = (==_iff low (length es)).0 e in rw same at before

  prune_entries-keeps :
      All IsPositive es
      → IsSorted es
      → sum_amounts es ≤ i128_max
      → length es ≤ max_window_entries
      → IsWindow (prune_entries now window_secs (exact_window es))
  unfolding prune_entries
  prune_entries-keeps p s b n = elim (Bool-cases (window_secs == 0)) [
    | inl endless ↦
        rw endless (record { positive = p; sorted = s; exact = refl; bounded = b; short = n })
    | inr bounded_time ↦
        let exact = prune_entries-exact p s b (λ e. absurd (differ e bounded_time)) in
        rw exact (record {
          positive = live_entries-All now window_secs IsPositive es p;
          sorted = live_entries-IsSorted now window_secs es s;
          exact = refl;
          bounded = omega (arith, sum-live_entries-le now window_secs es);
          short = omega (arith, length-live_entries-le now window_secs es);
        })
  ]
    where
      differ : window_secs ≡ 0 → (window_secs == 0) ≡ false → ⊥
      differ e h = ground arith

module _ (now window_secs : ℕ) (l : SingleLedger) (w : IsWindow l) where
  -- In a well-formed window and with a window width, pruning keeps exactly the entries that have not
  -- expired, in their order, and its total is the sum of what is left.
  pub prune_entries-live :
      window_secs ≢ 0
      → prune_entries now window_secs l ≡ exact_window (live_entries now window_secs l.entries)
  prune_entries-live h =
      rw (window-exact l w)
        (prune_entries-exact now window_secs l.entries w.positive w.sorted w.bounded h)

  -- Pruning keeps a window well-formed, whatever the time and the width.
  pub prune_entries-IsWindow : IsWindow (prune_entries now window_secs l)
  prune_entries-IsWindow =
      rw (window-exact l w)
        (prune_entries-keeps now window_secs l.entries w.positive w.sorted w.bounded w.short)

-- With no window width nothing is pruned.
pub prune_entries-zero_width :
    (now window_secs : ℕ) (l : SingleLedger)
    → (window_secs == 0) ≡ true
    → prune_entries now window_secs l ≡ l
unfolding prune_entries
prune_entries-zero_width now window_secs l h = rw h

module _ (now window_secs : ℕ) (l : SingleLedger) (w : IsWindow l) where
  pub prune_entries-All {κ} :
      (P : SpendEntry → Type κ) → All P l.entries → All P (prune_entries now window_secs l).entries
  prune_entries-All P h = elim (Bool-cases (window_secs == 0)) [
    | inl endless ↦ rw (prune_entries-zero_width now window_secs l endless) h
    | inr bounded ↦
        rw (prune_entries-live now window_secs l w (λ e. absurd (ground arith)))
          (live_entries-All now window_secs P l.entries h)
  ]

  pub sum-prune_entries-le :
      sum_amounts (prune_entries now window_secs l).entries ≤ sum_amounts l.entries
  sum-prune_entries-le = elim (Bool-cases (window_secs == 0)) [
    | inl endless ↦ rw (prune_entries-zero_width now window_secs l endless) (omega arith)
    | inr bounded ↦
        rw (prune_entries-live now window_secs l w (λ e. absurd (ground arith)))
          (sum-live_entries-le now window_secs l.entries)
  ]
