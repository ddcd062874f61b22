-- ===== src/Contract/Scval/Fields.antt =====
-- `has_exact_scval_fields` of src/lib.rs: what it accepts is a map with these fields in their order.
use Prim.Native.String.{String}
use stellar_agent_guard_cont.Common.{
  ℕ, ◌≡◌, refl, sym, ap, subst, ◌⊎◌, inl, inr, Bool, true, false, ◌&&◌, ◌||◌, Option, none, some,
  List, [], ◌∷◌, All, All-mono, any, all, map, length, ◌==◌, and_true, if◌then◌else◌,
}
use stellar_agent_guard_cont.AgentTx.Text.{codes, text_eq→eq, some_injective}
use stellar_agent_guard_cont.Contract.Scval.{
  ScVal, symbol, map_of, ScMap, no_entries, entry, entries_of, to_utf8_string, key_text, is_name,
  keys_ascend, key_is, has_exact_scval_fields, follows, text_is, utf8_from,
}
use stellar_agent_guard_cont.Contract.Scval.Order.{
  Less, Less-trans, All-In, In, Ascending, Ascending-unique,
}

-- One value for each field.
abbrev pub Values : List String → Type 0
Values [] = Unit
Values (f ∷ fs) = ScVal × Values fs

infixr 4 ◌&◌
abbrev pub ◌&◌ : {A : Type 0} → ScVal → A → ScVal × A
v & vs = (v, vs)

-- The map that a struct is written as.
abbrev pub named : (fields : List String) → Values fields → ScMap
named [] u = no_entries
named (f ∷ fs) vs = entry (symbol (codes f)) vs.0 (named fs vs.1)

-- The texts of the keys.
abbrev Keyed : List (List ℕ) → ScMap → Type 0
Keyed [] no_entries = Unit
Keyed (k ∷ ks) (entry key v m) = (key_text key ≡ some k) × Keyed ks m
Keyed [] (entry key v m) = ⊥
Keyed (k ∷ ks) no_entries = ⊥

same_if : {bytes k : List ℕ} (b : Bool) → (if b then some bytes else none) ≡ some k → bytes ≡ k
same_if true h = some_injective _ _ h
same_if false h = cc h

utf8_same : (bytes k : List ℕ) → to_utf8_string bytes ≡ some k → bytes ≡ k
utf8_same bytes k h = same_if (utf8_from [] bytes) h

key_text-symbol : (v : ScVal) (k : List ℕ) → key_text v ≡ some k → v ≡ symbol k
key_text-symbol (symbol bytes) k h = ap symbol (utf8_same bytes k h)
key_text-symbol v k h = cc h

-- Each key comes after the one before it.
abbrev Chain : Option (List ℕ) → List (List ℕ) → Type 0
Chain previous [] = Unit
Chain previous (k ∷ ks) = (follows previous k ≡ true) × Chain (some k) ks

above : (p : List ℕ) (ks : List (List ℕ)) → Chain (some p) ks → All (Less p) ks
above p [] c = tt
above p (k ∷ ks) c =
    (c.0, All-mono (Less k) (Less p) (λ q h. Less-trans p k q c.0 h) ks (above k ks c.1))

Chain-Ascending :
    (previous : Option (List ℕ)) (ks : List (List ℕ)) → Chain previous ks → Ascending ks
Chain-Ascending previous [] c = tt
Chain-Ascending previous (k ∷ ks) c = (above k ks c.1, Chain-Ascending (some k) ks c.1)

abbrev Expected : List String → List ℕ → Type 0
Expected expected k = any (is_name k) expected ≡ true

keys_ascend-Keyed :
    (previous : Option (List ℕ)) (expected : List String) (m : ScMap)
    → keys_ascend previous expected (entries_of m) ≡ true
    → (ks : List (List ℕ)) × Keyed ks m × Chain previous ks × All (Expected expected) ks
unfolding keys_ascend
keys_ascend-Keyed previous expected no_entries h = ([], tt, tt, tt)
keys_ascend-Keyed previous expected (entry key v m) h =
    elim (key_text key)
        as (λ o.
          key_text key ≡ o
          → elim o [
            | none ↦ false
            | some k ↦
                follows previous k
                && any (is_name k) expected
                && keys_ascend (some k) expected (entries_of m)
          ]
            ≡ true
          → (ks : List (List ℕ)) × Keyed ks (entry key v m)
            × Chain previous ks
            × All (Expected expected) ks) [
              | none ↦ λ e g. cc g
              | some k ↦ λ e g.
                  let (g', r) =
                    and_true (follows previous k && any (is_name k) expected)
                      (keys_ascend (some k) expected (entries_of m)) g in
                  let (f, x) = and_true (follows previous k) (any (is_name k) expected) g' in
                  let (ks, y, c, a) = keys_ascend-Keyed (some k) expected m r in
                  (k ∷ ks, (e, y), (f, c), (x, a))
            ]
      refl h

or_split : (a b : Bool) → (a || b) ≡ true → (a ≡ true) ⊎ (b ≡ true)
or_split true b h = inl refl
or_split false b h = inr h

-- A key that is tested for is among the keys.
key_found :
    (field : String) (ks : List (List ℕ)) (m : ScMap)
    → Keyed ks m
    → any (key_is field) (entries_of m) ≡ true
    → In (codes field) ks
key_found field [] no_entries y h = cc h
key_found field [] (entry key v m) y h = absurd y
key_found field (k ∷ ks) no_entries y h = absurd y
key_found field (k ∷ ks) (entry key v m) (e, y) h =
    elim (or_split (text_is (key_text key) field) (any (key_is field) (entries_of m)) h) [
      | inl t ↦ inl (sym (text_eq→eq k (codes field) (subst (λ o. text_is o field ≡ true) e t)))
      | inr t ↦ inr (key_found field ks m y t)
    ]

-- A key that is expected is one of the names.
name_found : (k : List ℕ) (fields : List String) → Expected fields k → In k (map codes fields)
name_found k [] h = cc h
name_found k (f ∷ fs) h = elim (or_split (is_name k f) (any (is_name k) fs) h) [
  | inl t ↦ inl (text_eq→eq k (codes f) t)
  | inr t ↦ inr (name_found k fs t)
]

Keyed-named :
    (fields : List String) (m : ScMap)
    → Keyed (map codes fields) m
    → (vs : Values fields) × (m ≡ named fields vs)
Keyed-named [] no_entries y = (tt, refl)
Keyed-named [] (entry key v m) y = absurd y
Keyed-named (f ∷ fs) no_entries y = absurd y
Keyed-named (f ∷ fs) (entry key v m) (e, y) =
    let (vs, r) = Keyed-named fs m y in let s = key_text-symbol key (codes f) e in ((v, vs), cc)

-- All the fields that are tested for are among the keys.
keys_found :
    (expected : List String) (ks : List (List ℕ)) (m : ScMap)
    → Keyed ks m
    → all (λ (field : String). any (key_is field) (entries_of m)) expected ≡ true
    → All (λ (f : String). In (codes f) ks) expected
keys_found [] ks m y h = tt
keys_found (f ∷ fs) ks m y h =
    let (t, r) = and_true (any (key_is f) (entries_of m)) _ h in
    (key_found f ks m y t, keys_found fs ks m y r)

found_under :
    (ks : List (List ℕ)) (fields : List String)
    → All (λ (f : String). In (codes f) ks) fields
    → (k : List ℕ) → In k (map codes fields)
    → In k ks
found_under ks [] a k i = absurd i
found_under ks (f ∷ fs) a k (inl e) = subst (λ z. In z ks) (sym e) a.0
found_under ks (f ∷ fs) a k (inr i) = found_under ks fs a.1 k i

abbrev pub subset : List String → List String → Bool
subset fields others = all (λ (f : String). any (is_name (codes f)) others) fields

names_found :
    (fields others : List String)
    → subset fields others ≡ true
    → All (λ (f : String). In (codes f) (map codes others)) fields
names_found [] others h = tt
names_found (f ∷ fs) others h =
    let (t, r) = and_true (any (is_name (codes f)) others) _ h in
    (name_found (codes f) others t, names_found fs others r)

-- All the keys are among the expected names.
keys_listed :
    (expected : List String) (ks : List (List ℕ))
    → All (Expected expected) ks
    → (k : List ℕ) → In k ks
    → In k (map codes expected)
keys_listed expected ks a k i = name_found k expected (All-In (Expected expected) k ks a i)

abbrev ascending : Option (List ℕ) → List String → Bool
ascending previous [] = true
ascending previous (f ∷ fs) = follows previous (codes f) && ascending (some (codes f)) fs

ascending-Chain :
    (previous : Option (List ℕ)) (fs : List String)
    → ascending previous fs ≡ true
    → Chain previous (map codes fs)
ascending-Chain previous [] h = tt
ascending-Chain previous (f ∷ fs) h =
    let (a, r) = and_true (follows previous (codes f)) (ascending (some (codes f)) fs) h in
    (a, ascending-Chain (some (codes f)) fs r)

-- The same fields, in ascending order.
abbrev pub sorts : List String → List String → Bool
sorts expected sorted = ascending none sorted && subset expected sorted && subset sorted expected

-- A map of exactly the expected fields has them in ascending order.
pub has_exact_scval_fields-named :
    (expected sorted : List String)
    → sorts expected sorted ≡ true
    → (m : ScMap) → has_exact_scval_fields (map_of m) expected ≡ true
    → (vs : Values sorted) × (m ≡ named sorted vs)
unfolding has_exact_scval_fields
has_exact_scval_fields-named expected sorted s m h =
    let (s', back) =
      and_true (ascending none sorted && subset expected sorted) (subset sorted expected) s in
    let (order, there) = and_true (ascending none sorted) (subset expected sorted) s' in
    let ascends = Chain-Ascending none (map codes sorted) (ascending-Chain none sorted order) in
    let (g, t) =
      and_true
        (length (entries_of m) == length expected && keys_ascend none expected (entries_of m)) _
        h in
    let (l, a) = and_true (length (entries_of m) == length expected) _ g in
    let (ks, y, c, x) = keys_ascend-Keyed none expected m a in
    let outward = found_under (map codes sorted) expected (names_found expected sorted there) in
    let inward = found_under (map codes expected) sorted (names_found sorted expected back) in
    let held = found_under ks expected (keys_found expected ks m y t) in
    let same =
      Ascending-unique ks (map codes sorted) (Chain-Ascending none ks c) ascends
        (λ k i. outward k (keys_listed expected ks x k i)) (λ k i. held k (inward k i)) in
    Keyed-named sorted m (subst (λ z. Keyed z m) same y)
