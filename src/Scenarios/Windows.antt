-- ===== src/Scenarios/Windows.antt =====
-- Windows of a few entries.
use stellar_agent_guard_cont.Common.{
  zero, suc, saturating_sub, ◌-ℤ◌, pos, ◌≡◌, inl, inr, refl, none, some, [], ◌∷◌, arith,
}
use stellar_agent_guard_cont.Types.Policy.{PolicyConfig}
use stellar_agent_guard_cont.Window.Single.{prune_entries, admit_to_ledger, expired_prefix}
use stellar_agent_guard_cont.Window.Ledger.{Ledger, global_window}
use stellar_agent_guard_cont.Window.Sums.{IsWindow}
use stellar_agent_guard_cont.Window.Search.{Boundary, LiveFrom, expired_prefix-Boundary}
use stellar_agent_guard_cont.Window.Prune.{exact_window, live_entries, prune_entries-live}
use stellar_agent_guard_cont.Window.Admit.{Admits, admit_to_ledger-Admits}
use stellar_agent_guard_cont.Engine.Caps.{
  contains_addr, effective_per_tx_cap, recipient_override_cap,
}
use stellar_agent_guard_cont.Engine.Parse.{parse_call, asset_transfer}
use stellar_agent_guard_cont.Engine.Evaluate.{allowed, asset_paused}
use stellar_agent_guard_cont.Engine.Decide.{decide}
use stellar_agent_guard_cont.Engine.Gates.{IsOpen}
use stellar_agent_guard_cont.Engine.Recovery.{IsQuiet, IsOrdinary, decide-Reopens}
use stellar_agent_guard_cont.Contract.Reload.{written-reload}
use stellar_agent_guard_cont.Contract.CheckAuth.Effects.{written}
use stellar_agent_guard_cont.Contract.Storage.{loaded}
use stellar_agent_guard_cont.Scenarios.{small_host, small_policy, awake, pay, two_spends}

two_spends-IsWindow : IsWindow two_spends
two_spends-IsWindow = record {
  positive = (refl, (refl, tt));
  sorted = ((omega arith, tt), (tt, tt));
  exact = refl;
  bounded = omega arith;
  short = omega arith;
}

-- At second 60, 50 seconds after the first spend, that spend has left.
pruned_test :
    prune_entries 60 50 two_spends
    ≡ record { total = pos 30; entries = record { ts = 30; amount = pos 30 } ∷ [] }
unfolding prune_entries saturating_sub ◌-ℤ◌
pruned_test = refl

prune_entries-live_example :
    prune_entries 60 50 two_spends ≡ exact_window (live_entries 60 50 two_spends.entries)
prune_entries-live_example = prune_entries-live 60 50 two_spends two_spends-IsWindow (ground arith)

beyond_two : LiveFrom 60 50 two_spends.entries 2
beyond_two zero e at le = absurd (omega arith)
beyond_two (suc zero) e at le = absurd (omega arith)
beyond_two (suc (suc i)) e at le = cc

expired_prefix-Boundary_example :
    Boundary 60 50 two_spends.entries (expired_prefix 3 two_spends.entries 60 50 0 2)
expired_prefix-Boundary_example =
    expired_prefix-Boundary 60 50 two_spends.entries two_spends-IsWindow.sorted 3 0 2 (omega arith)
      (omega arith) (omega arith) (λ i e at lt. absurd (omega arith)) beyond_two

admit_to_ledger-Admits_example :
    IsWindow (admit_to_ledger 40 (pos 5) two_spends).0
    × Admits 40 5 two_spends.entries (admit_to_ledger 40 (pos 5) two_spends).0.entries
admit_to_ledger-Admits_example =
    admit_to_ledger-Admits 40 (pos 5) two_spends two_spends-IsWindow refl
      (omega arith, (omega arith, tt)) (omega arith)

abbrev two_spend_ledger : Ledger
two_spend_ledger = record {
  total = pos 50;
  entries = two_spends.entries;
  recipients = [];
  protocol_call_entries = [];
  protocol_call_total = 0;
  merges = [];
}

written-reload_example :
    global_window (loaded (written (loaded none).1 two_spend_ledger none)).0
    ≡ global_window two_spend_ledger
written-reload_example = written-reload two_spend_ledger none two_spends-IsWindow

-- The policy with a cap of 45 for the recipient 3, and a window that this recipient has used up.
abbrev recipient_policy : PolicyConfig
recipient_policy = record small_policy {
  recipient_window_caps = record { recipient = 3; cap = pos 45 } ∷ [];
}

abbrev used_up : Ledger
used_up = record two_spend_ledger {
  recipients = record { recipient = 3; total = pos 50; entries = two_spends.entries } ∷ [];
}

-- At second 80 the last spend, of second 30, is as old as the window is wide.
used_up-IsQuiet : IsQuiet 80 50 used_up
used_up-IsQuiet = record {
  global = (two_spends-IsWindow, (omega arith, (omega arith, tt)));
  recipients = ((two_spends-IsWindow, (omega arith, (omega arith, tt))), tt);
}

pay-IsOrdinary : IsOrdinary recipient_policy 7 3 40
unfolding asset_paused effective_per_tx_cap recipient_override_cap
pay-IsOrdinary = record {
  unpaused = refl;
  positive = omega arith;
  in_range = omega arith;
  unblocked = tt;
  known = inr (inl refl);
  per_tx = refl;
  window = λ on. refl;
  recipient = refl;
}

awake-IsOpen : IsOpen recipient_policy awake 80
awake-IsOpen = record {
  alive = λ on was. omega arith;
  running = refl;
  started = omega arith;
  unfinished = λ on. omega arith;
}

pay_parsed : parse_call small_host 4 (pay (pos 40)) recipient_policy ≡ asset_transfer 7 3 (pos 40)
unfolding parse_call contains_addr
pay_parsed = refl

decide-Reopens_example :
    (decide small_host 4 (some recipient_policy) awake used_up 80 (pay (pos 40) ∷ [])).0
    ≡ allowed ∷ []
decide-Reopens_example =
    decide-Reopens recipient_policy 80 used_up (ground arith) used_up-IsQuiet small_host 4 awake
      (pay (pos 40)) 7 3 40 refl awake-IsOpen pay_parsed pay-IsOrdinary
