-- ===== src/Window/Admit.antt =====
-- Admitting a spend into a well-formed window keeps it well-formed, adds the spend to the total, and
-- forgets no live amount.
use stellar_agent_guard_cont.Common.{
  ℕ, suc, ◌+◌, ◌≤◌, ◌<◌, ℤ, pos, negsuc, pos_part, is_pos, i128_max, saturating_add,
  saturating_add-pos, ◌≡◌, refl, inl, inr, true, some, List, [], ◌∷◌, ◌++◌, All, All-append,
  All-append_split, length, length-append, last?, set_last, last_view, Option-cases, Bool-cases,
  arith, ◌==◌, ==_iff, ltb, if◌then◌else◌,
}
use stellar_agent_guard_cont.Types.Policy.{max_window_entries}
use stellar_agent_guard_cont.Types.Ledger.{SpendEntry}
use stellar_agent_guard_cont.Window.Single.{
  SingleLedger, is_expired, merge_entries, merge_oldest, push_entry, admit_to_ledger,
}
use stellar_agent_guard_cont.Window.Sums.{
  IsWindow, IsPositive, IsSorted, NotAfter, magnitude, sum_amounts, sum_amounts-append,
  amount-magnitude, IsSorted-push, IsSorted-push_split,
}
use stellar_agent_guard_cont.Window.Prune.{exact_window, window-exact}

abbrev pub live_size : ℕ → ℕ → SpendEntry → ℕ
live_size t window_secs e = if is_expired t window_secs e then 0 else magnitude e

-- What is still counted at time `t`.
abbrev pub live_sum : ℕ → ℕ → List SpendEntry → ℕ
live_sum t window_secs [] = 0
live_sum t window_secs (e ∷ es) = live_size t window_secs e + live_sum t window_secs es

pub live_sum-append :
    (t window_secs : ℕ) (xs ys : List SpendEntry)
    → live_sum t window_secs (xs ++ ys) ≡ live_sum t window_secs xs + live_sum t window_secs ys
live_sum-append t window_secs [] ys = omega arith
live_sum-append t window_secs (x ∷ xs) ys = omega (arith, live_sum-append t window_secs xs ys)

pub live_sum-le-sum :
    (t window_secs : ℕ) (es : List SpendEntry) → live_sum t window_secs es ≤ sum_amounts es
live_sum-le-sum t window_secs [] = omega arith
live_sum-le-sum t window_secs (e ∷ es) = ground (arith, live_sum-le-sum t window_secs es)

abbrev spend : ℕ → ℕ → SpendEntry
spend now a = record { ts = now; amount = pos a }

-- What admitting `a` at `now` does to the entries `es`, giving `out`.
pub record Admits (now a : ℕ) (es out : List SpendEntry) : Type 0 where
  pub positive : All IsPositive out
  pub sorted : IsSorted out
  pub sums : sum_amounts out ≡ sum_amounts es + a
  pub times : All (NotAfter now) out
  pub covers :
      (t window_secs : ℕ)
      → live_sum t window_secs es + live_size t window_secs (spend now a)
        ≤ live_sum t window_secs out

module _ (now a : ℕ) (some_amount : 0 < a) where
  push_Admits :
      (es : List SpendEntry)
      → All IsPositive es
      → IsSorted es
      → All (NotAfter now) es
      → Admits now a es (es ++ spend now a ∷ [])
  push_Admits es p s t = record {
    positive = All-append IsPositive es (spend now a ∷ []) p (ground arith, tt);
    sorted = IsSorted-push es (spend now a) s t;
    sums = omega (arith, sum_amounts-append es (spend now a ∷ []));
    times = All-append (NotAfter now) es (spend now a ∷ []) t (omega arith, tt);
    covers = λ t w. omega (arith, live_sum-append t w es (spend now a ∷ []));
  }

  -- The last entry is of this second: its amount grows.
  coalesce_Admits :
      (front : List SpendEntry) (last : SpendEntry)
      → last.ts ≡ now
      → All IsPositive (front ++ last ∷ [])
      → IsSorted (front ++ last ∷ [])
      → Admits now a (front ++ last ∷ []) (front ++ spend now (magnitude last + a) ∷ [])
  coalesce_Admits front last same p s =
      let grown = spend now (magnitude last + a) in
      let (before, here) = All-append_split IsPositive front (last ∷ []) p in
      let (sorted, ordered) = IsSorted-push_split front last s in
      let times : All (NotAfter now) front = rw same at ordered in
      record {
        positive = All-append IsPositive front (grown ∷ []) before (ground arith, tt);
        sorted = IsSorted-push front grown sorted times;
        sums =
            omega
              (arith, sum_amounts-append front (last ∷ []), sum_amounts-append front (grown ∷ []));
        times = All-append (NotAfter now) front (grown ∷ []) times (omega arith, tt);
        covers = λ t w.
            ground (
              arith,
              live_sum-append t w front (last ∷ []),
              live_sum-append t w front (grown ∷ []),
            );
      }

  -- Merging the two oldest entries of what a push left.
  merge_Admits :
      (es : List SpendEntry) (x y : SpendEntry) (rest : List SpendEntry)
      → Admits now a es (x ∷ y ∷ rest)
      → sum_amounts (x ∷ y ∷ rest) ≤ i128_max
      → Admits now a es (spend y.ts (magnitude x + magnitude y) ∷ rest)
  merge_Admits es x y rest h b =
      let (xy, (y_first, sorted)) = h.sorted in
      let (px, (py, ps)) = h.positive in
      let (tx, (ty, ts)) = h.times in
      record {
        positive = (ground arith, ps);
        sorted = (y_first, sorted);
        sums = omega (arith, h.sums);
        times = (ty, ts);
        covers = λ t w. let before = h.covers t w in let first = xy.0 in ground arith;
      }

  merge_oldest-Admits :
      (es out : List SpendEntry)
      → Admits now a es out
      → sum_amounts out ≤ i128_max
      → 2 ≤ length out
      → Admits now a es (merge_oldest out).0 × (length out ≡ suc (length (merge_oldest out).0))
  merge_oldest-Admits es [] h b n = absurd (omega arith)
  merge_oldest-Admits es (x ∷ []) h b n = absurd (omega arith)
  merge_oldest-Admits es (x ∷ y ∷ rest) h b n =
      let (px, (py, ps)) = h.positive in
      let merged : merge_entries x y ≡ spend y.ts (magnitude x + magnitude y) =
        rw
          (
            amount-magnitude x px,
            amount-magnitude y py,
            saturating_add-pos (magnitude x) (magnitude y),
          )
          (ground arith) in
      (rw merged (merge_Admits es x y rest h b), refl)

module _ (now a : ℕ) (some_amount : 0 < a) (es : List SpendEntry) where
  -- A window `l` holds what admitting `a` at `now` to `es` leaves.
  IsAdmitted : SingleLedger → Type 0
  IsAdmitted l = IsWindow l × Admits now a es l.entries

  to_IsAdmitted :
      (out : List SpendEntry)
      → Admits now a es out
      → sum_amounts es + a ≤ i128_max
      → length out ≤ max_window_entries
      → IsAdmitted (record { total = saturating_add (pos (sum_amounts es)) (pos a); entries = out })
  unfolding IsAdmitted
  to_IsAdmitted out h b n = (
    record {
      positive = h.positive;
      sorted = h.sorted;
      exact = rw (saturating_add-pos (sum_amounts es) a) (ground (arith, h.sums));
      bounded = omega (arith, h.sums);
      short = n;
    },
    h,
  )

  push_entry-IsAdmitted :
      All IsPositive es
      → IsSorted es
      → All (NotAfter now) es
      → sum_amounts es + a ≤ i128_max
      → length es ≤ max_window_entries
      → IsAdmitted (push_entry now (pos a) (exact_window es)).0
  unfolding push_entry
  push_entry-IsAdmitted p s t b n =
      let pushed = push_Admits now a some_amount es p s t in
      let longer = length-append es (spend now a ∷ []) in
      elim (Bool-cases (ltb max_window_entries (length (es ++ spend now a ∷ [])))) [
        | inl full ↦
            let (merged, shorter) =
              merge_oldest-Admits now a some_amount es (es ++ spend now a ∷ []) pushed
                (omega (arith, pushed.sums)) (ground arith) in
            rw full (to_IsAdmitted (merge_oldest (es ++ spend now a ∷ [])).0 merged b (omega arith))
        | inr room ↦ rw room (to_IsAdmitted (es ++ spend now a ∷ []) pushed b (ground arith))
      ]

  coalesce-IsAdmitted :
      (last : SpendEntry)
      → last? es ≡ some last
      → last.ts ≡ now
      → All IsPositive es
      → IsSorted es
      → sum_amounts es + a ≤ i128_max
      → length es ≤ max_window_entries
      → IsAdmitted (record {
        total = saturating_add (pos (sum_amounts es)) (pos a);
        entries = set_last es (record { ts = now; amount = saturating_add last.amount (pos a) });
      })
  coalesce-IsAdmitted last found same p s b n =
      let (front, whole, put) = last_view es last found in
      let positive : All IsPositive (front ++ last ∷ []) = rw whole at p in
      let here = (All-append_split IsPositive front (last ∷ []) positive).1.0 in
      let sums : sum_amounts es ≡ sum_amounts front + magnitude last =
        rw whole (omega (arith, sum_amounts-append front (last ∷ []))) in
      let grown : saturating_add last.amount (pos a) ≡ pos (magnitude last + a) =
        rw (amount-magnitude last here, saturating_add-pos (magnitude last) a) (ground arith) in
      let out = front ++ spend now (magnitude last + a) ∷ [] in
      let lengths : length es ≡ length out = rw whole (
        omega (
          arith,
          length-append front (last ∷ []),
          length-append front (spend now (magnitude last + a) ∷ []),
        )) in
      let admits : Admits now a es out =
        rw whole (coalesce_Admits now a some_amount front last same positive (rw whole at s)) in
      rw (grown, put (spend now (magnitude last + a))) (to_IsAdmitted out admits b (omega arith))

  admit_to_ledger-exact :
      All IsPositive es
      → IsSorted es
      → All (NotAfter now) es
      → sum_amounts es + a ≤ i128_max
      → length es ≤ max_window_entries
      → IsAdmitted (admit_to_ledger now (pos a) (exact_window es)).0
  unfolding admit_to_ledger
  admit_to_ledger-exact p s t b n = elim (Option-cases (last? es)) [
    | inl nothing ↦ rw nothing (push_entry-IsAdmitted p s t b n)
    | inr (last, found) ↦ elim (Bool-cases (last.ts == now)) [
      | inr other ↦ rw (found, other) (push_entry-IsAdmitted p s t b n)
      | inl same ↦ rw (found, same) (coalesce-IsAdmitted last found ((==_iff _ _).0 same) p s b n)
    ]
  ]

-- A positive spend that is not older than the entries of a well-formed window, and that fits `i128`
-- beside them, leaves a well-formed window: the sum grows by the spend, no entry is newer than the
-- spend, and at every later time and for every width the window counts at least what it counted
-- before and, unless it has expired, the spend.
pub admit_to_ledger-Admits :
    (now : ℕ) (amount : ℤ) (l : SingleLedger)
    → IsWindow l
    → is_pos amount ≡ true
    → All (NotAfter now) l.entries
    → sum_amounts l.entries + pos_part amount ≤ i128_max
    → let l' = (admit_to_ledger now amount l).0 in
      IsWindow l' × Admits now (pos_part amount) l.entries l'.entries
admit_to_ledger-Admits now (pos a) l w p t b = rw (window-exact l w) (
    unfold IsAdmitted in
    admit_to_ledger-exact now a (ground arith) l.entries w.positive w.sorted t b w.short)
admit_to_ledger-Admits now (negsuc a) l w p t b = cc
