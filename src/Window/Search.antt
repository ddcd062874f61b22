-- ===== src/Window/Search.antt =====
-- The binary search of `prune_entries` finds the boundary between expired and live entries, and ends.
use stellar_agent_guard_cont.Common.{
  ℕ, zero, suc, ◌+◌, ◌-◌, ◌/◌, ◌≤◌, ◌<◌, ◌≡◌, refl, inl, inr, true, false, Option, some, List, [],
  ◌∷◌, All, length, get_elem?, arith, ltb, Bool-cases,
}
use stellar_agent_guard_cont.Types.Ledger.{SpendEntry}
use stellar_agent_guard_cont.Window.Single.{is_expired, expired_prefix}
use stellar_agent_guard_cont.Window.Sums.{IsSorted, NotBefore}

pub get_elem?_of_lt :
    (es : List SpendEntry) (i : ℕ) → i < length es → (e : SpendEntry) × (get_elem? es i ≡ some e)
get_elem?_of_lt [] i h = absurd (omega arith)
get_elem?_of_lt (e ∷ es) zero h = (e, refl)
get_elem?_of_lt (e ∷ es) (suc i) h = get_elem?_of_lt es i (omega arith)

get_elem?-NotBefore :
    (t : ℕ) (es : List SpendEntry) (j : ℕ) (b : SpendEntry)
    → All (NotBefore t) es
    → get_elem? es j ≡ some b
    → t ≤ b.ts
get_elem?-NotBefore t [] j b h e = cc
get_elem?-NotBefore t (x ∷ xs) zero b (h, hs) e = ground arith
get_elem?-NotBefore t (x ∷ xs) (suc j) b (h, hs) e = get_elem?-NotBefore t xs j b hs e

-- In a sorted list a later place holds no earlier time.
get_elem?-mono :
    (es : List SpendEntry) (i j : ℕ) (a b : SpendEntry)
    → IsSorted es
    → i ≤ j
    → get_elem? es i ≡ some a
    → get_elem? es j ≡ some b
    → a.ts ≤ b.ts
get_elem?-mono [] i j a b s le ea eb = cc
get_elem?-mono (x ∷ xs) zero zero a b s le ea eb = ground arith
get_elem?-mono (x ∷ xs) zero (suc j) a b (s, ss) le ea eb =
    let first = get_elem?-NotBefore x.ts xs j b s eb in ground arith
get_elem?-mono (x ∷ xs) (suc i) zero a b s le ea eb = absurd (omega arith)
get_elem?-mono (x ∷ xs) (suc i) (suc j) a b (s, ss) le ea eb =
    get_elem?-mono xs i j a b ss (omega arith) ea eb

module _ (now window_secs : ℕ) where
  -- Every entry before place `k` has expired.
  abbrev pub ExpiredBefore : List SpendEntry → ℕ → Type 0
  ExpiredBefore es k =
      (i : ℕ) (e : SpendEntry)
      → get_elem? es i ≡ some e
      → i < k
      → is_expired now window_secs e ≡ true

  -- Every entry from place `k` on is live.
  abbrev pub LiveFrom : List SpendEntry → ℕ → Type 0
  LiveFrom es k =
      (i : ℕ) (e : SpendEntry)
      → get_elem? es i ≡ some e
      → k ≤ i
      → is_expired now window_secs e ≡ false

  -- What the search returns.
  abbrev pub Boundary : List SpendEntry → Option ℕ → Type 0
  Boundary es r = (k : ℕ) × (r ≡ some k) × (k ≤ length es) × ExpiredBefore es k × LiveFrom es k

  module _ (es : List SpendEntry) (sorted : IsSorted es) where
    expired_up_to :
        (mid : ℕ) (e : SpendEntry)
        → get_elem? es mid ≡ some e
        → is_expired now window_secs e ≡ true
        → ExpiredBefore es (mid + 1)
    expired_up_to mid e at old i a ea lt =
        let le = get_elem?-mono es i mid a e sorted (omega arith) ea at in ground arith

    live_down_to :
        (mid : ℕ) (e : SpendEntry)
        → get_elem? es mid ≡ some e
        → is_expired now window_secs e ≡ false
        → LiveFrom es mid
    live_down_to mid e at young i a ea le =
        let order = get_elem?-mono es mid i e a sorted le at ea in ground arith

    -- On sorted entries, with fuel above the width of the range, expired entries below it and live ones
    -- above it, the search ends at the boundary: all before it have expired, and none from it on.
    pub expired_prefix-Boundary :
        (fuel low high : ℕ)
        → low ≤ high
        → high ≤ length es
        → high - low < fuel
        → ExpiredBefore es low
        → LiveFrom es high
        → Boundary es (expired_prefix fuel es now window_secs low high)
    unfolding expired_prefix
    expired_prefix-Boundary zero low high le in_range enough before after = absurd (omega arith)
    expired_prefix-Boundary (suc fuel) low high le in_range enough before after =
        elim (Bool-cases (ltb low high)) [
          | inr done ↦ (low, rw done, omega arith, before, λ i e at k. after i e at (ground arith))
          | inl more ↦
              let mid = low + (high - low) / 2 in
              let (e, at) = get_elem?_of_lt es mid (ground arith) in
              elim (Bool-cases (is_expired now window_secs e)) [
                | inl old ↦
                    rw (more, at, old)
                      (expired_prefix-Boundary fuel (mid + 1) high (ground arith) in_range
                        (ground arith) (expired_up_to mid e at old) after)
                | inr young ↦
                    rw (more, at, young)
                      (expired_prefix-Boundary fuel low mid (ground arith) (ground arith)
                        (ground arith) before (live_down_to mid e at young))
              ]
        ]
