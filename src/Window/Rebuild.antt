-- ===== src/Window/Rebuild.antt =====
-- Loading and storing the ledger: what is rebuilt from stored entries, and the way back.
use stellar_agent_guard_cont.Common.{
  ℕ, ◌+◌, min, pos, is_pos, i128_max, saturating_add, saturating_add-pos, ◌≡◌, refl, ◌∙◌, inl, inr,
  List, [], ◌∷◌, ◌++◌, All, Bool-cases, arith, if◌then◌else◌,
}
use mathlib.Core.List.{append_assoc, append-nil}
use stellar_agent_guard_cont.Types.Ledger.{SpendEntry}
use stellar_agent_guard_cont.Window.Single.{SingleLedger, rebuild, ledger_from_entries}
use stellar_agent_guard_cont.Window.Sums.{
  IsWindow, IsPositive, magnitude, sum_amounts, amount-magnitude,
}

-- The entries that a rebuild keeps.
abbrev pub positives : List SpendEntry → List SpendEntry
positives [] = []
positives (e ∷ es) = let rest = positives es in if is_pos e.amount then e ∷ rest else rest

rebuild_lem :
    (n : ℕ) (clean es : List SpendEntry)
    → rebuild (pos (min n i128_max)) clean es ≡ record {
      total = pos (min (n + sum_amounts (positives es)) i128_max);
      entries = clean ++ positives es;
    }
unfolding rebuild
rebuild_lem n clean [] = rw append-nil (ground arith)
rebuild_lem n clean (e ∷ es) = elim (Bool-cases (is_pos e.amount)) [
  | inl p ↦
      let step : saturating_add (pos (min n i128_max)) e.amount
          ≡ pos (min (n + magnitude e) i128_max) =
        rw (amount-magnitude e p, saturating_add-pos (min n i128_max) (magnitude e))
          (ground arith) in
      rw (p, step)
        (rebuild_lem (n + magnitude e) (clean ++ e ∷ []) es ∙ rw append_assoc (ground arith))
  | inr zero_or_less ↦ rw zero_or_less (rebuild_lem n clean es)
]

-- Whatever is stored, a rebuilt window holds the positive entries in their order, and its total is
-- their sum, cut off at the largest `i128`.
pub ledger_from_entries_lem :
    (es : List SpendEntry)
    → ledger_from_entries es
      ≡ record { total = pos (min (sum_amounts (positives es)) i128_max); entries = positives es }
unfolding ledger_from_entries
ledger_from_entries_lem es = rebuild_lem 0 [] es ∙ ground arith

positives-id : (es : List SpendEntry) → All IsPositive es → positives es ≡ es
positives-id [] h = refl
positives-id (e ∷ es) (h, hs) = rw (h, positives-id es hs)

-- A well-formed window is rebuilt from its entries as it was.
pub ledger_from_entries-entries :
    (l : SingleLedger) → IsWindow l → ledger_from_entries l.entries ≡ l
ledger_from_entries-entries l w =
    let total : min (sum_amounts l.entries) i128_max ≡ sum_amounts l.entries =
      omega (arith, w.bounded) in
    rw (ledger_from_entries_lem l.entries, positives-id l.entries w.positive, total)
      (ground (arith, w.exact))
