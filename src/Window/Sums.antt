-- ===== src/Window/Sums.antt =====
-- What a well-formed spend window is: positive amounts in time order, an exact total. And how the sum
-- of the amounts behaves.
use stellar_agent_guard_cont.Common.{
  ℕ, ◌+◌, ◌≤◌, pos, is_pos, pos_part, i128_max, ◌≡◌, true, List, [], ◌∷◌, ◌++◌, length, All,
  All-append, All-append_split, All-mono, arith,
}
use stellar_agent_guard_cont.Types.Policy.{max_window_entries}
use stellar_agent_guard_cont.Types.Ledger.{SpendEntry}
use stellar_agent_guard_cont.Window.Single.{SingleLedger}

-- The size of an amount that is not negative.
abbrev pub magnitude : SpendEntry → ℕ
magnitude e = pos_part e.amount

abbrev pub sum_amounts : List SpendEntry → ℕ
sum_amounts [] = 0
sum_amounts (e ∷ es) = magnitude e + sum_amounts es

abbrev pub IsPositive : SpendEntry → Type 0
IsPositive e = is_pos e.amount ≡ true

abbrev pub NotBefore : ℕ → SpendEntry → Type 0
NotBefore t e = t ≤ e.ts

abbrev pub NotAfter : ℕ → SpendEntry → Type 0
NotAfter t e = e.ts ≤ t

abbrev pub IsSorted : List SpendEntry → Type 0
IsSorted [] = Unit
IsSorted (e ∷ es) = All (NotBefore e.ts) es × IsSorted es

-- The invariant of one window.
pub record IsWindow (l : SingleLedger) : Type 0 where
  pub positive : All IsPositive l.entries
  pub sorted : IsSorted l.entries
  pub exact : l.total ≡ pos (sum_amounts l.entries)
  pub bounded : sum_amounts l.entries ≤ i128_max
  pub short : length l.entries ≤ max_window_entries

pub amount-magnitude : (e : SpendEntry) → IsPositive e → e.amount ≡ pos (magnitude e)
amount-magnitude e h = ground arith

pub sum_amounts-append :
    (xs ys : List SpendEntry) → sum_amounts (xs ++ ys) ≡ sum_amounts xs + sum_amounts ys
sum_amounts-append [] ys = omega arith
sum_amounts-append (x ∷ xs) ys = omega (arith, sum_amounts-append xs ys)

-- A later bound follows from an earlier one.
pub NotBefore-mono :
    (s t : ℕ) (es : List SpendEntry) → s ≤ t → All (NotBefore t) es → All (NotBefore s) es
NotBefore-mono s t es h = All-mono (NotBefore t) (NotBefore s) (λ e k. omega arith) es

pub NotAfter-mono :
    (s t : ℕ) (es : List SpendEntry) → s ≤ t → All (NotAfter s) es → All (NotAfter t) es
NotAfter-mono s t es h = All-mono (NotAfter s) (NotAfter t) (λ e k. omega arith) es

-- A new last entry keeps the order.
pub IsSorted-push :
    (es : List SpendEntry) (e : SpendEntry)
    → IsSorted es
    → All (NotAfter e.ts) es
    → IsSorted (es ++ e ∷ [])
IsSorted-push [] e h k = (tt, tt)
IsSorted-push (x ∷ xs) e (h, hs) (k, ks) =
    (All-append (NotBefore x.ts) xs (e ∷ []) h (k, tt), IsSorted-push xs e hs ks)

-- In a sorted list the front is sorted, and comes before the last entry.
pub IsSorted-push_split :
    (es : List SpendEntry) (e : SpendEntry)
    → IsSorted (es ++ e ∷ [])
    → IsSorted es × All (NotAfter e.ts) es
IsSorted-push_split [] e h = (tt, tt)
IsSorted-push_split (x ∷ xs) e (h, hs) =
    let (before, last) = All-append_split (NotBefore x.ts) xs (e ∷ []) h in
    let (sorted, after) = IsSorted-push_split xs e hs in ((before, sorted), (last.0, after))
