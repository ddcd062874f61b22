-- ===== src/Window/Single.antt =====
-- One rolling spend ledger of src/window.rs: a total beside its entries, oldest first. Rebuilding
-- it, dropping what has expired, admitting a spend.
use stellar_agent_guard_cont.Common.{
  ℕ, zero, suc, ◌+◌, ◌-◌, ◌/◌, ℤ, pos, is_pos, saturating_add, saturating_sub, u64_add, Bool, ◌||◌,
  Option, none, some, List, [], ◌∷◌, ◌++◌, length, get_elem?, last?, set_last, ltb, leb, ◌==◌,
  if◌then◌else◌,
}
use stellar_agent_guard_cont.Types.Policy.{max_window_entries}
use stellar_agent_guard_cont.Types.Ledger.{SpendEntry}

pub record SingleLedger : Type 0 where
  pub total : ℤ
  pub entries : List SpendEntry

-- The loop of `ledger_from_entries`, on what it has kept so far.
unfoldable pub rebuild : ℤ → List SpendEntry → List SpendEntry → SingleLedger
rebuild acc clean [] = record { total = acc; entries = clean }
rebuild acc clean (e ∷ entries) =
    rebuild (if is_pos e.amount then saturating_add acc e.amount else acc)
      (if is_pos e.amount then clean ++ e ∷ [] else clean) entries

unfoldable pub ledger_from_entries : List SpendEntry → SingleLedger
unfolding rebuild
ledger_from_entries entries = rebuild (pos 0) [] entries

-- The test of an entry's age.
abbrev pub is_expired : ℕ → ℕ → SpendEntry → Bool
is_expired now window_secs e = leb (u64_add e.ts window_secs) now

-- The binary search of `prune_entries` for the length of the expired prefix. `none` is fuel that ran
-- out; `mid` is below the length, so its conversion to `u32` and the read do not fail.
unfoldable pub expired_prefix : ℕ → List SpendEntry → ℕ → ℕ → ℕ → ℕ → Option ℕ
expired_prefix zero entries now window_secs low high = none
expired_prefix (suc fuel) entries now window_secs low high =
    let mid = low + (high - low) / 2 in
    let again = expired_prefix fuel entries now window_secs low high in
    let right = expired_prefix fuel entries now window_secs (mid + 1) high in
    let left = expired_prefix fuel entries now window_secs low mid in
    if ltb low high
    then elim (get_elem? entries mid) [
      | none ↦ again
      | some entry ↦ if is_expired now window_secs entry then right else left
    ]
    else some low

abbrev pub pop_entries : ℤ → List SpendEntry → SingleLedger
pop_entries total [] = record { total = total; entries = [] }
pop_entries total (front ∷ rest) = record {
  total = saturating_sub total front.amount;
  entries = rest;
}

-- One round of `for _ in 0..low`: the front leaves, and its amount the total.
abbrev pub pop_front : SingleLedger → SingleLedger
pop_front l = pop_entries l.total l.entries

unfoldable pub pop_expired : ℕ → SingleLedger → SingleLedger
pop_expired zero l = l
pop_expired (suc n) l = pop_expired n (pop_front l)

-- `prune_entries`. The search halves its range, so more fuel than there are entries suffices.
unfoldable pub prune_entries : ℕ → ℕ → SingleLedger → SingleLedger
unfolding expired_prefix pop_expired
prune_entries now window_secs l =
    let n = length l.entries in
    if window_secs == 0 || n == 0
    then l
    else elim (expired_prefix (suc n) l.entries now window_secs 0 n) [
      | none ↦ l
      | some low ↦ if low == n then record { total = pos 0; entries = [] } else pop_expired low l
    ]

-- What `admit_to_ledger` returns beside the ledger: the timestamp and value of a merge.
abbrev pub Merge : Type 0
Merge = Option (ℕ × ℤ)

abbrev pub merge_entries : SpendEntry → SpendEntry → SpendEntry
merge_entries older newer = record {
  ts = newer.ts;
  amount = saturating_add older.amount newer.amount;
}

-- The two oldest entries become one at the newer time; what is missing counts as zero at time zero.
abbrev pub merge_oldest : List SpendEntry → List SpendEntry × Merge
merge_oldest (older ∷ newer ∷ rest) =
    let merged = merge_entries older newer in (merged ∷ rest, some (merged.ts, merged.amount))
merge_oldest (older ∷ []) =
    let merged = merge_entries older (record { ts = 0; amount = pos 0 }) in
    (merged ∷ [], some (merged.ts, merged.amount))
merge_oldest [] =
    let zero_entry : SpendEntry = record { ts = 0; amount = pos 0 } in
    let merged = merge_entries zero_entry zero_entry in
    (merged ∷ [], some (merged.ts, merged.amount))

-- A new entry at the back, with the backstop at `max_window_entries`.
unfoldable pub push_entry : ℕ → ℤ → SingleLedger → SingleLedger × Merge
push_entry now amount l =
    let entries = l.entries ++ record { ts = now; amount = amount } ∷ [] in
    let total = saturating_add l.total amount in
    if ltb max_window_entries (length entries)
    then (record { total = total; entries = (merge_oldest entries).0 }, (merge_oldest entries).1)
    else (record { total = total; entries = entries }, none)

-- `admit_to_ledger`: a spend in the second of the last one is added to it.
unfoldable pub admit_to_ledger : ℕ → ℤ → SingleLedger → SingleLedger × Merge
unfolding push_entry
admit_to_ledger now amount l = elim (last? l.entries) [
  | none ↦ push_entry now amount l
  | some last ↦
      if last.ts == now
      then (
        record {
          total = saturating_add l.total amount;
          entries =
              set_last l.entries (record { ts = now; amount = saturating_add last.amount amount });
        },
        none,
      )
      else push_entry now amount l
]
