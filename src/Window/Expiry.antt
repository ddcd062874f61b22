-- ===== src/Window/Expiry.antt =====
-- What has expired stays expired: pruning changes no count at a later time.
use stellar_agent_guard_cont.Common.{
  ℕ, ◌≤◌, ◌≡◌, refl, inl, inr, true, List, [], ◌∷◌, Bool-cases, arith, ◌==◌,
}
use stellar_agent_guard_cont.Types.Ledger.{SpendEntry}
use stellar_agent_guard_cont.Window.Single.{SingleLedger, is_expired, prune_entries}
use stellar_agent_guard_cont.Window.Sums.{IsWindow}
use stellar_agent_guard_cont.Window.Prune.{
  live_entries, prune_entries-live, prune_entries-zero_width,
}
use stellar_agent_guard_cont.Window.Admit.{live_sum}

module _ (now t window_secs : ℕ) (later : now ≤ t) where
  is_expired_mono :
      (e : SpendEntry) → is_expired now window_secs e ≡ true → is_expired t window_secs e ≡ true
  is_expired_mono e h = ground arith

  pub live_sum-live_entries :
      (es : List SpendEntry)
      → live_sum t window_secs (live_entries now window_secs es) ≡ live_sum t window_secs es
  live_sum-live_entries [] = refl
  live_sum-live_entries (e ∷ es) = elim (Bool-cases (is_expired now window_secs e)) [
    | inl old ↦ rw (old, is_expired_mono e old) (omega (arith, live_sum-live_entries es))
    | inr young ↦ rw young (omega (arith, live_sum-live_entries es))
  ]

  -- Counts only fall as time goes on.
  pub live_sum_mono :
      (es : List SpendEntry) → live_sum t window_secs es ≤ live_sum now window_secs es
  live_sum_mono [] = omega arith
  live_sum_mono (e ∷ es) = elim (Bool-cases (is_expired now window_secs e)) [
    | inl old ↦ rw (old, is_expired_mono e old) (omega (arith, live_sum_mono es))
    | inr young ↦ rw young (ground (arith, live_sum_mono es))
  ]

  -- Pruning at `now` changes no count from then on.
  pub live_sum-prune_entries :
      (l : SingleLedger)
      → IsWindow l
      → live_sum t window_secs (prune_entries now window_secs l).entries
        ≡ live_sum t window_secs l.entries
  live_sum-prune_entries l w = elim (Bool-cases (window_secs == 0)) [
    | inl endless ↦ rw (prune_entries-zero_width now window_secs l endless)
    | inr bounded ↦
        rw (prune_entries-live now window_secs l w (λ e. absurd (ground arith)))
          (live_sum-live_entries l.entries)
  ]
