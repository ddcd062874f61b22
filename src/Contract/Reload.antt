-- ===== src/Contract/Reload.antt =====
-- What an authorization writes back is what the next one loads.
use stellar_agent_guard_cont.Common.{
  ◌≡◌, sym, ap, ◌∙◌, inl, inr, false, Option, none, some, [], length, length-eq-zero, arith,
  Bool-cases,
}
use stellar_agent_guard_cont.Types.Ledger.{WindowState}
use stellar_agent_guard_cont.Window.Ledger.{Ledger, global_window, empty, from_state, to_state, len}
use stellar_agent_guard_cont.Window.Sums.{IsWindow}
use stellar_agent_guard_cont.Window.Prune.{exact_window, window-exact}
use stellar_agent_guard_cont.Window.Rebuild.{ledger_from_entries-entries}
use stellar_agent_guard_cont.Contract.Storage.{loaded}
use stellar_agent_guard_cont.Contract.CheckAuth.{saves_window}
use stellar_agent_guard_cont.Contract.CheckAuth.Effects.{written}

-- A well-formed global window survives the way through the storage.
pub from_state-to_state :
    (l : Ledger)
    → IsWindow (global_window l)
    → global_window (from_state (to_state l)) ≡ global_window l
unfolding from_state to_state
from_state-to_state l w = ledger_from_entries-entries (global_window l) w

no_entries :
    (l : Ledger)
    → IsWindow (global_window l)
    → length l.entries ≡ 0
    → global_window l ≡ global_window empty
unfolding empty
no_entries l w h =
    let nil : l.entries ≡ [] = length-eq-zero l.entries h in
    window-exact (global_window l) w ∙ ap exact_window nil

-- After a passing request that left a well-formed global window, the next one loads that window, also
-- where nothing was written.
pub written-reload :
    (l : Ledger) (before : Option WindowState)
    → IsWindow (global_window l)
    → global_window (loaded (written (loaded before).1 l before)).0 ≡ global_window l
unfolding saves_window len
written-reload l (some state) w = from_state-to_state l w
written-reload l none w = elim (Bool-cases (saves_window false l)) [
  | inl saved ↦ rw saved (from_state-to_state l w)
  | inr unsaved ↦ rw unsaved (sym (no_entries l w (ground arith)))
]
