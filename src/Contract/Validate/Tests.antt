-- ===== src/Contract/Validate/Tests.antt =====
-- The tests of the validation decide the predicates of its specification.
use stellar_agent_guard_cont.Common.{
  ◌≡◌, refl, ◌↔◌, Bool, true, false, not, Option, none, some, List, [], ◌∷◌, All, any, arith,
  or_false,
}
use text.Mathlib.TextEquality.{eq_iff}
use stellar_agent_guard_cont.Types.Policy.{Address, addr_eq, sym_eq, PolicyRuleId}
use stellar_agent_guard_cont.Engine.Caps.{contains_addr}
use stellar_agent_guard_cont.Contract.Validate.{has_dup, reject, and_then}
use stellar_agent_guard_cont.Contract.Validate.Spec.{Distinct, Listed, Absent}

pub reject_iff :
    (b : Bool) (rule : PolicyRuleId) (rest : Option PolicyRuleId)
    → (reject b rule rest ≡ none) ↔ ((b ≡ false) × (rest ≡ none))
reject_iff true rule rest = (λ e. absurd (ground arith), λ p. absurd (ground arith))
reject_iff false rule rest = (λ e. (refl, e), λ p. p.1)

pub and_then_iff : (a b : Option PolicyRuleId) → (and_then a b ≡ none) ↔ ((a ≡ none) × (b ≡ none))
and_then_iff none b = (λ e. (refl, e), λ p. p.1)
and_then_iff (some rule) b = (λ e. absurd (ground arith), λ p. absurd (ground arith))

module _ {ℓ} {A : Type ℓ} where
  -- A test that decides a relation, and what it says where it fails.
  abbrev pub Decides {κ} : (A → A → Bool) → (A → A → Type κ) → Type (ℓ ⊔ κ)
  Decides test R = (a b : A) → (test a b ≡ false) ↔ (¬ R a b)

  pub any_iff {κ} :
      (test : A → Bool) (P : A → Type κ)
      → ((a : A) → (test a ≡ false) ↔ (¬ P a))
      → (xs : List A) → (any test xs ≡ false) ↔ All (λ a. ¬ P a) xs
  any_iff test P decides [] = (λ e. tt, λ t. refl)
  any_iff test P decides (x ∷ xs) =
      let rest = any_iff test P decides xs in
      (
        λ e. let (head, tail) = or_false (test x) _ e in ((decides x).0 head, rest.0 tail),
        λ p. rw ((decides x).1 p.0) (rest.1 p.1),
      )

  pub has_dup_iff {κ} :
      (test : A → A → Bool) (R : A → A → Type κ)
      → Decides test R
      → (xs : List A) → (has_dup test xs ≡ false) ↔ Distinct R xs
  unfolding has_dup
  has_dup_iff test R decides [] = (λ e. tt, λ t. refl)
  has_dup_iff test R decides (x ∷ xs) =
      let rest = has_dup_iff test R decides xs in
      let first = any_iff (test x) (R x) (decides x) xs in
      (
        λ e. let (head, tail) = or_false (any (test x) xs) _ e in (first.0 head, rest.0 tail),
        λ p. rw (first.1 p.0) (rest.1 p.1),
      )

pub addr_decides : Decides addr_eq ◌≡◌
addr_decides a b = (λ e p. absurd (ground arith), λ n. ground arith)

pub sym_decides : Decides sym_eq ◌≡◌
sym_decides a b = (λ e p. absurd (ground (arith, eq_iff a b)), λ n. ground (arith, eq_iff a b))

pub contains_addr_iff :
    (xs : List Address) (a : Address) → (contains_addr xs a ≡ false) ↔ Absent a xs
unfolding contains_addr
contains_addr_iff [] a = (λ e. tt, λ t. refl)
contains_addr_iff (x ∷ xs) a =
    let rest = contains_addr_iff xs a in (λ e. ground (arith, rest), λ p. ground (arith, rest))

pub contains_addr-Listed :
    (xs : List Address) (a : Address) → (not (contains_addr xs a) ≡ false) ↔ Listed a xs
unfolding contains_addr
contains_addr-Listed [] a = (λ e. absurd (ground arith), λ t. absurd t)
contains_addr-Listed (x ∷ xs) a =
    let rest = contains_addr-Listed xs a in (λ e. ground (arith, rest), λ p. ground (arith, rest))
