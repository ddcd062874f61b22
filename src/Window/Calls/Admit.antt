-- ===== src/Window/Calls/Admit.antt =====
-- Admitting protocol calls into a well-formed count: one more for each, and no live one forgotten.
use stellar_agent_guard_cont.Common.{
  ℕ, suc, ◌+◌, ◌≤◌, u32_max, u32_add, ◌≡◌, refl, inl, inr, some, List, [], ◌∷◌, ◌++◌, All,
  All-append, All-append_split, length, length-append, last?, set_last, last_view, arith,
  Bool-cases, Option-cases, ◌==◌, ==_iff, ltb,
}
use stellar_agent_guard_cont.Types.Policy.{max_window_entries}
use stellar_agent_guard_cont.Types.Ledger.{ProtocolCallEntry}
use stellar_agent_guard_cont.Window.Protocol.{
  ProtocolCallLedger, merge_oldest_calls, push_call, admit_to_protocol_call_ledger,
}
use stellar_agent_guard_cont.Window.Calls.{
  sum_calls, live_count, live_calls, CallNotBefore, CallNotAfter, AreSortedCalls, IsCallWindow,
}

abbrev pub call_at : ℕ → ℕ → ProtocolCallEntry
call_at now n = record { ts = now; count = n }

-- What admitting a call at `now` does to the entries `es`, giving `out`.
record AdmitsCall (now : ℕ) (es out : List ProtocolCallEntry) : Type 0 where
  sorted : AreSortedCalls out
  times : All (CallNotAfter now) out
  sums : sum_calls out ≡ suc (sum_calls es)
  covers :
      (t window_secs : ℕ)
      → live_calls t window_secs es + live_count t window_secs (call_at now 1)
        ≤ live_calls t window_secs out

sum_calls-append :
    (xs ys : List ProtocolCallEntry) → sum_calls (xs ++ ys) ≡ sum_calls xs + sum_calls ys
sum_calls-append [] ys = omega arith
sum_calls-append (x ∷ xs) ys = omega (arith, sum_calls-append xs ys)

live_calls-append :
    (t window_secs : ℕ) (xs ys : List ProtocolCallEntry)
    → live_calls t window_secs (xs ++ ys)
      ≡ live_calls t window_secs xs + live_calls t window_secs ys
live_calls-append t window_secs [] ys = omega arith
live_calls-append t window_secs (x ∷ xs) ys = omega (arith, live_calls-append t window_secs xs ys)

AreSortedCalls-push :
    (es : List ProtocolCallEntry) (e : ProtocolCallEntry)
    → AreSortedCalls es
    → All (CallNotAfter e.ts) es
    → AreSortedCalls (es ++ e ∷ [])
AreSortedCalls-push [] e s t = (tt, tt)
AreSortedCalls-push (x ∷ xs) e (s, ss) (t, ts) =
    (All-append (CallNotBefore x.ts) xs (e ∷ []) s (t, tt), AreSortedCalls-push xs e ss ts)

AreSortedCalls-push_split :
    (es : List ProtocolCallEntry) (e : ProtocolCallEntry)
    → AreSortedCalls (es ++ e ∷ [])
    → AreSortedCalls es × All (CallNotAfter e.ts) es
AreSortedCalls-push_split [] e s = (tt, tt)
AreSortedCalls-push_split (x ∷ xs) e (s, ss) =
    let (before, last) = All-append_split (CallNotBefore x.ts) xs (e ∷ []) s in
    let (sorted, after) = AreSortedCalls-push_split xs e ss in ((before, sorted), (last.0, after))

module _ (now : ℕ) where
  push-AdmitsCall :
      (es : List ProtocolCallEntry)
      → AreSortedCalls es
      → All (CallNotAfter now) es
      → AdmitsCall now es (es ++ call_at now 1 ∷ [])
  push-AdmitsCall es s t = record {
    sorted = AreSortedCalls-push es (call_at now 1) s t;
    times = All-append (CallNotAfter now) es (call_at now 1 ∷ []) t (omega arith, tt);
    sums = omega (arith, sum_calls-append es (call_at now 1 ∷ []));
    covers = λ t w. omega (arith, live_calls-append t w es (call_at now 1 ∷ []));
  }

  coalesce-AdmitsCall :
      (front : List ProtocolCallEntry) (last : ProtocolCallEntry)
      → last.ts ≡ now
      → AreSortedCalls (front ++ last ∷ [])
      → AdmitsCall now (front ++ last ∷ []) (front ++ call_at now (last.count + 1) ∷ [])
  coalesce-AdmitsCall front last same s =
      let grown = call_at now (last.count + 1) in
      let (sorted, ordered) = AreSortedCalls-push_split front last s in
      let times : All (CallNotAfter now) front = rw same at ordered in
      record {
        sorted = AreSortedCalls-push front grown sorted times;
        times = All-append (CallNotAfter now) front (grown ∷ []) times (omega arith, tt);
        sums =
            omega (arith, sum_calls-append front (last ∷ []), sum_calls-append front (grown ∷ []));
        covers = λ t w. ground (
          arith,
          live_calls-append t w front (last ∷ []),
          live_calls-append t w front (grown ∷ []),
        );
      }

  merge-AdmitsCall :
      (es out : List ProtocolCallEntry)
      → AdmitsCall now es out
      → sum_calls out ≤ u32_max
      → 2 ≤ length out
      → AdmitsCall now es (merge_oldest_calls out).0
        × (length out ≡ suc (length (merge_oldest_calls out).0))
  merge-AdmitsCall es [] h b n = absurd (omega arith)
  merge-AdmitsCall es (x ∷ []) h b n = absurd (omega arith)
  merge-AdmitsCall es (x ∷ y ∷ rest) h b n =
      let (xy, (y_first, sorted)) = h.sorted in
      let (tx, (ty, ts)) = h.times in
      let merged : u32_add x.count y.count ≡ x.count + y.count = ground arith in
      (
        rw merged (record {
          sorted = (y_first, sorted);
          times = (ty, ts);
          sums = omega (arith, h.sums);
          covers = λ t w. let before = h.covers t w in let first = xy.0 in ground arith;
        }),
        refl,
      )

-- A window `l` holds what admitting a call at `now` to `es` leaves.
IsCallAdmitted : ℕ → List ProtocolCallEntry → ProtocolCallLedger → Type 0
IsCallAdmitted now es l = IsCallWindow now l × AdmitsCall now es l.entries

module _ (now : ℕ) (es : List ProtocolCallEntry) (room : sum_calls es + 1 ≤ u32_max) where
  to_IsCallAdmitted :
      (out : List ProtocolCallEntry)
      → AdmitsCall now es out
      → length out ≤ max_window_entries
      → IsCallAdmitted now es (record { total = u32_add (sum_calls es) 1; entries = out })
  unfolding IsCallAdmitted
  to_IsCallAdmitted out h n = (
    record {
      sorted = h.sorted;
      times = h.times;
      exact = ground (arith, h.sums);
      bounded = omega (arith, h.sums);
      short = n;
    },
    h,
  )

  push_call-IsCallAdmitted :
      AreSortedCalls es
      → All (CallNotAfter now) es
      → length es ≤ max_window_entries
      → IsCallAdmitted now es (push_call now (record { total = sum_calls es; entries = es })).0
  unfolding push_call
  push_call-IsCallAdmitted s t n =
      let out = es ++ call_at now 1 ∷ [] in
      let pushed = push-AdmitsCall now es s t in
      let longer = length-append es (call_at now 1 ∷ []) in
      elim (Bool-cases (ltb max_window_entries (length out))) [
        | inl full ↦
            let (merged, shorter) =
              merge-AdmitsCall now es out pushed (omega (arith, pushed.sums)) (ground arith) in
            rw full (to_IsCallAdmitted (merge_oldest_calls out).0 merged (omega arith))
        | inr space ↦ rw space (to_IsCallAdmitted out pushed (ground arith))
      ]

  coalesce-IsCallAdmitted :
      (last : ProtocolCallEntry)
      → last? es ≡ some last
      → last.ts ≡ now
      → AreSortedCalls es
      → length es ≤ max_window_entries
      → IsCallAdmitted now es (record {
        total = u32_add (sum_calls es) 1;
        entries = set_last es (record { ts = now; count = u32_add last.count 1 });
      })
  coalesce-IsCallAdmitted last found same s n =
      let (front, whole, put) = last_view es last found in
      let sums : sum_calls es ≡ sum_calls front + last.count =
        rw whole (omega (arith, sum_calls-append front (last ∷ []))) in
      let grown : u32_add last.count 1 ≡ last.count + 1 = ground arith in
      let out = front ++ call_at now (last.count + 1) ∷ [] in
      let lengths : length es ≡ length out = rw whole (
        omega (
          arith,
          length-append front (last ∷ []),
          length-append front (call_at now (last.count + 1) ∷ []),
        )) in
      let admits : AdmitsCall now es out =
        rw whole (coalesce-AdmitsCall now front last same (rw whole at s)) in
      rw (grown, put (call_at now (last.count + 1))) (to_IsCallAdmitted out admits (omega arith))

  admit-IsCallAdmitted :
      AreSortedCalls es
      → All (CallNotAfter now) es
      → length es ≤ max_window_entries
      → IsCallAdmitted now es
          (admit_to_protocol_call_ledger now (record { total = sum_calls es; entries = es })).0
  unfolding admit_to_protocol_call_ledger
  admit-IsCallAdmitted s t n = elim (Option-cases (last? es)) [
    | inl nothing ↦ rw (admit_to_protocol_call_ledger, nothing) (push_call-IsCallAdmitted s t n)
    | inr (last, found) ↦ elim (Bool-cases (last.ts == now)) [
      | inr other ↦
          rw (admit_to_protocol_call_ledger, found, other) (push_call-IsCallAdmitted s t n)
      | inl same ↦
          rw (admit_to_protocol_call_ledger, found, same)
            (coalesce-IsCallAdmitted last found ((==_iff _ _).0 same) s n)
    ]
  ]

-- From the count `l` to `l'`, `n` calls at `now` were added, and no live call was forgotten.
pub record AddsCalls (now n : ℕ) (l l' : ProtocolCallLedger) : Type 0 where
  pub window : IsCallWindow now l'
  pub sums : sum_calls l'.entries ≡ sum_calls l.entries + n
  pub covers :
      (t window_secs : ℕ)
      → live_calls t window_secs l.entries + live_count t window_secs (call_at now n)
        ≤ live_calls t window_secs l'.entries

-- One call that fits the count is added to it, and no live call is forgotten.
pub admit-AddsCalls :
    (now : ℕ) (l : ProtocolCallLedger)
    → IsCallWindow now l
    → sum_calls l.entries + 1 ≤ u32_max
    → AddsCalls now 1 l (admit_to_protocol_call_ledger now l).0
unfolding IsCallAdmitted
admit-AddsCalls now l w room =
    let (window, admits) = admit-IsCallAdmitted now l.entries room w.sorted w.times w.short in
    rw w.exact
      (record { window = window; sums = omega (arith, admits.sums); covers = admits.covers })
