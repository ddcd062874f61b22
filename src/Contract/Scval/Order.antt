-- ===== src/Contract/Scval/Order.antt =====
-- Ascending lists of texts, for the field names of a map in src/lib.rs: two of them with the same elements
-- are equal.
use stellar_agent_guard_cont.Common.{
  ℕ, ◌≡◌, refl, sym, subst, ◌⊎◌, inl, inr, true, List, [], ◌∷◌, All, arith,
}
use stellar_agent_guard_cont.Contract.Scval.{text_ltb}

-- `a < b` on texts
abbrev pub Less : List ℕ → List ℕ → Type 0
Less s t = text_ltb s t ≡ true

Less-irreflexive : (s : List ℕ) → ¬ Less s s
Less-irreflexive [] h = cc h
Less-irreflexive (a ∷ s) h = ground (arith, Less-irreflexive s)

pub Less-trans : (r s t : List ℕ) → Less r s → Less s t → Less r t
Less-trans r s [] h k = cc k
Less-trans r [] (c ∷ t) h k = cc h
Less-trans [] (b ∷ s) (c ∷ t) h k = refl
Less-trans (a ∷ r) (b ∷ s) (c ∷ t) h k = ground (arith, Less-trans r s t)

abbrev pub In : List ℕ → List (List ℕ) → Type 0
In x [] = ⊥
In x (y ∷ ys) = (x ≡ y) ⊎ In x ys

abbrev pub Ascending : List (List ℕ) → Type 0
Ascending [] = Unit
Ascending (x ∷ xs) = All (Less x) xs × Ascending xs

abbrev Includes : List (List ℕ) → List (List ℕ) → Type 0
Includes xs ys = (x : List ℕ) → In x xs → In x ys

pub All-In : (P : List ℕ → Type 0) (x : List ℕ) (xs : List (List ℕ)) → All P xs → In x xs → P x
All-In P x [] h m = absurd m
All-In P x (y ∷ ys) (h, hs) (inl e) = subst (λ z. P z) (sym e) h
All-In P x (y ∷ ys) (h, hs) (inr m) = All-In P x ys hs m

-- The heads of two ascending lists that include each other.
heads_agree :
    (x y : List ℕ) (xs ys : List (List ℕ))
    → All (Less x) xs
    → All (Less y) ys
    → In x (y ∷ ys)
    → In y (x ∷ xs)
    → x ≡ y
heads_agree x y xs ys hx hy (inl e) k = e
heads_agree x y xs ys hx hy (inr m) (inl e) = sym e
heads_agree x y xs ys hx hy (inr m) (inr n) =
    absurd (
      Less-irreflexive x (Less-trans x y x (All-In (Less x) y xs hx n) (All-In (Less y) x ys hy m)))

-- What is above the head stands in the tail.
tail_holds : (x y : List ℕ) (ys : List (List ℕ)) → Less y x → In x (y ∷ ys) → In x ys
tail_holds x y ys h (inl e) = absurd (Less-irreflexive y (subst (λ z. Less y z) e h))
tail_holds x y ys h (inr m) = m

Includes-tail :
    (x : List ℕ) (xs ys : List (List ℕ))
    → All (Less x) xs
    → Includes (x ∷ xs) (x ∷ ys)
    → Includes xs ys
Includes-tail x xs ys h k z m = tail_holds z x ys (All-In (Less x) z xs h m) (k z (inr m))

pub Ascending-unique :
    (xs ys : List (List ℕ))
    → Ascending xs
    → Ascending ys
    → ((x : List ℕ) → In x xs → In x ys)
    → ((x : List ℕ) → In x ys → In x xs)
    → xs ≡ ys
Ascending-unique [] [] hx hy f g = refl
Ascending-unique [] (y ∷ ys) hx hy f g = absurd (g y (inl refl))
Ascending-unique (x ∷ xs) [] hx hy f g = absurd (f x (inl refl))
Ascending-unique (x ∷ xs) (y ∷ ys) hx hy f g =
    let e = heads_agree x y xs ys hx.0 hy.0 (f x (inl refl)) (g y (inl refl)) in
    let f' : Includes (x ∷ xs) (x ∷ ys) = subst (λ z. Includes (x ∷ xs) (z ∷ ys)) (sym e) f in
    let g' : Includes (x ∷ ys) (x ∷ xs) = subst (λ z. Includes (z ∷ ys) (x ∷ xs)) (sym e) g in
    let hy' : All (Less x) ys = subst (λ z. All (Less z) ys) (sym e) hy.0 in
    let rest =
      Ascending-unique xs ys hx.1 hy.1 (Includes-tail x xs ys hx.0 f')
        (Includes-tail x ys xs hy' g') in
    cc
