-- ===== src/Window/Protocol.antt =====
-- The rolling count of protocol calls of src/window.rs.
use stellar_agent_guard_cont.Common.{
  ℕ, ◌-◌, Bool, u64_add, u32_add, Option, none, some, List, [], ◌∷◌, ◌++◌, length, last?, set_last,
  ltb, leb, ◌==◌, if◌then◌else◌,
}
use stellar_agent_guard_cont.Types.Policy.{max_window_entries}
use stellar_agent_guard_cont.Types.Ledger.{ProtocolCallEntry}

pub record ProtocolCallLedger : Type 0 where
  pub total : ℕ
  pub entries : List ProtocolCallEntry

-- The loop of `protocol_call_entries_from_state`, on what it has kept so far.
rebuild_calls : ℕ → List ProtocolCallEntry → List ProtocolCallEntry → ProtocolCallLedger
rebuild_calls acc clean [] = record { total = acc; entries = clean }
rebuild_calls acc clean (e ∷ entries) =
    rebuild_calls (if ltb 0 e.count then u32_add acc e.count else acc)
      (if ltb 0 e.count then clean ++ e ∷ [] else clean) entries

unfoldable pub protocol_call_entries_from_state : List ProtocolCallEntry → ProtocolCallLedger
unfolding rebuild_calls
protocol_call_entries_from_state entries = rebuild_calls 0 [] entries

abbrev pub is_expired_call : ℕ → ℕ → ProtocolCallEntry → Bool
is_expired_call now window_secs e = leb (u64_add e.ts window_secs) now

-- The loop of `prune_protocol_call_entries`, which stops at the first entry that is live.
unfoldable pub pop_expired_calls : ℕ → ℕ → ℕ → List ProtocolCallEntry → ProtocolCallLedger
pop_expired_calls now window_secs total [] = record { total = total; entries = [] }
pop_expired_calls now window_secs total (front ∷ rest) =
    let popped = pop_expired_calls now window_secs (total - front.count) rest in
    if is_expired_call now window_secs front
    then popped
    else record { total = total; entries = front ∷ rest }

unfoldable pub prune_protocol_call_entries : ℕ → ℕ → ProtocolCallLedger → ProtocolCallLedger
unfolding pop_expired_calls
prune_protocol_call_entries now window_secs l =
    if window_secs == 0 then l else pop_expired_calls now window_secs l.total l.entries

abbrev pub CallMerge : Type 0
CallMerge = Option (ℕ × ℕ)

abbrev pub merge_calls : ProtocolCallEntry → ProtocolCallEntry → ProtocolCallEntry
merge_calls older newer = record { ts = newer.ts; count = u32_add older.count newer.count }

abbrev pub merge_oldest_calls : List ProtocolCallEntry → List ProtocolCallEntry × CallMerge
merge_oldest_calls (older ∷ newer ∷ rest) =
    let merged = merge_calls older newer in (merged ∷ rest, some (merged.ts, merged.count))
merge_oldest_calls (older ∷ []) =
    let merged = merge_calls older (record { ts = 0; count = 0 }) in
    (merged ∷ [], some (merged.ts, merged.count))
merge_oldest_calls [] =
    let zero_entry : ProtocolCallEntry = record { ts = 0; count = 0 } in
    let merged = merge_calls zero_entry zero_entry in (merged ∷ [], some (merged.ts, merged.count))

unfoldable pub push_call : ℕ → ProtocolCallLedger → ProtocolCallLedger × CallMerge
push_call now l =
    let entries = l.entries ++ record { ts = now; count = 1 } ∷ [] in
    let total = u32_add l.total 1 in
    if ltb max_window_entries (length entries)
    then (
      record { total = total; entries = (merge_oldest_calls entries).0 },
      (merge_oldest_calls entries).1,
    )
    else (record { total = total; entries = entries }, none)

-- A call in the second of the last one is added to it.
unfoldable pub admit_to_protocol_call_ledger :
    ℕ → ProtocolCallLedger → ProtocolCallLedger × CallMerge
unfolding push_call
admit_to_protocol_call_ledger now l = elim (last? l.entries) [
  | none ↦ push_call now l
  | some last ↦
      if last.ts == now
      then (
        record {
          total = u32_add l.total 1;
          entries = set_last l.entries (record { ts = now; count = u32_add last.count 1 });
        },
        none,
      )
      else push_call now l
]
