-- ===== src/Contract/Validate/Sound.antt =====
-- The validation of `set_policy` accepts exactly the valid policies.
use stellar_agent_guard_cont.Common.{
  ◌≡◌, refl, ◌↔◌, false, ◌||◌, Option, none, some, List, [], ◌∷◌, ◌++◌, All, All-append,
  All-append_split, any, arith, ltb, or_false,
}
use stellar_agent_guard_cont.Types.Policy.{
  Address, Symbol, addr_eq, sym_eq, ProtocolRule, PolicyConfig, duration_exceeds_bound,
  max_window_secs, max_dms_grace_secs,
}
use stellar_agent_guard_cont.Engine.Caps.{contains_addr}
use stellar_agent_guard_cont.Contract.Validate.{fns_invalid, protocol_entries, first_failing_rule}
use stellar_agent_guard_cont.Contract.Validate.Spec.{
  Distinct, Absent, AreFnsValid, SameContract, IsValidConfig,
}
use stellar_agent_guard_cont.Contract.Validate.Tests.{
  reject_iff, and_then_iff, any_iff, has_dup_iff, addr_decides, sym_decides, contains_addr_iff,
}
use stellar_agent_guard_cont.Contract.Validate.Parts.{
  scalar_iff, list_iff, recipient_caps_iff, asset_caps_iff,
}

fns_iff : (fns : Option (List Symbol)) → (fns_invalid fns ≡ false) ↔ AreFnsValid fns
fns_iff none = (λ e. tt, λ t. refl)
fns_iff (some []) = (λ e. absurd (ground arith), λ v. absurd (v.0 refl))
fns_iff (some (f ∷ fs)) =
    let distinct = has_dup_iff sym_eq ◌≡◌ sym_decides (f ∷ fs) in
    (λ e. (λ n. cc, distinct.0 e), λ v. distinct.1 v.1)

-- A contract that was seen before stands in no later rule.
abbrev Unseen : List Address → ProtocolRule → Type 0
Unseen seen pr = All (λ (c : Address). ¬ (c ≡ pr.contract)) seen

seen_iff :
    (seen : List Address) (pr : ProtocolRule)
    → (any (λ (existing : Address). addr_eq existing pr.contract) seen ≡ false) ↔ Unseen seen pr
seen_iff seen pr =
    any_iff (λ (existing : Address). addr_eq existing pr.contract)
      (λ (c : Address). c ≡ pr.contract) (λ c. addr_decides c pr.contract) seen

-- Adding one contract to those seen.
more_seen :
    (seen : List Address) (pr : ProtocolRule) (prs : List ProtocolRule)
    → All (Unseen (seen ++ pr.contract ∷ [])) prs
      ↔ (All (Unseen seen) prs × All (λ (q : ProtocolRule). ¬ SameContract pr q) prs)
more_seen seen pr [] = (λ t. (tt, tt), λ p. tt)
more_seen seen pr (q ∷ qs) =
    let rest = more_seen seen pr qs in
    let P : Address → Type 0 = λ c. ¬ (c ≡ q.contract) in
    (
      λ u.
          let (old, new) = All-append_split P seen (pr.contract ∷ []) u.0 in
          let (olds, news) = rest.0 u.1 in ((old, olds), (new.0, news)),
      λ p. (All-append P seen (pr.contract ∷ []) p.0.0 (p.1.0, tt), rest.1 (p.0.1, p.1.1)),
    )

protocols_iff :
    (seen : List Address) (prs : List ProtocolRule)
    → (protocol_entries seen prs ≡ none) ↔ (
        All (Unseen seen) prs
        × Distinct SameContract prs
        × All (λ (pr : ProtocolRule). AreFnsValid pr.fns) prs)
unfolding protocol_entries
protocols_iff seen [] = (λ e. (tt, tt, tt), λ t. refl)
protocols_iff seen (pr ∷ prs) =
    let rest = protocols_iff (seen ++ pr.contract ∷ []) prs in
    let more = more_seen seen pr prs in
    (
      λ e.
          let (e₁, r₁) = (reject_iff _ _ _).0 e in
          let (e₂, r₂) = (reject_iff _ _ _).0 r₁ in
          let (unseen, distinct, fns) = rest.0 r₂ in
          let (old, new) = more.0 unseen in
          (((seen_iff seen pr).0 e₁, old), (new, distinct), ((fns_iff pr.fns).0 e₂, fns)),
      λ v.
          rw ((seen_iff seen pr).1 v.0.0, (fns_iff pr.fns).1 v.2.0)
            (rest.1 (more.1 (v.0.1, v.1.0), v.1.1, v.2.1)),
    )

disjoint_iff :
    (blocked recipients : List Address)
    → (any (contains_addr blocked) recipients ≡ false)
      ↔ All (λ (r : Address). Absent r blocked) recipients
disjoint_iff blocked [] = (λ e. tt, λ t. refl)
disjoint_iff blocked (r ∷ rs) =
    let rest = disjoint_iff blocked rs in
    let here = contains_addr_iff blocked r in
    (
      λ e. let (e₁, e₂) = or_false _ _ e in (here.0 e₁, rest.0 e₂),
      λ v. rw (here.1 v.0) (rest.1 v.1),
    )

Unseen-none : (prs : List ProtocolRule) → All (Unseen []) prs
Unseen-none [] = tt
Unseen-none (pr ∷ prs) = (tt, Unseen-none prs)

module _ (self_addr : Address) (cfg : PolicyConfig) where
  rule_sound : first_failing_rule self_addr cfg ≡ none → IsValidConfig self_addr cfg
  unfolding first_failing_rule
  rule_sound e =
      let (scalar, r₁) = (and_then_iff _ _).0 e in
      let (lists, r₂) = (and_then_iff _ _).0 r₁ in
      let (recipient_caps, r₃) = (and_then_iff _ _).0 r₂ in
      let (asset_caps, r₄) = (and_then_iff _ _).0 r₃ in
      let (disjoint, r₅) = (reject_iff _ _ _).0 r₄ in
      let (protocols, r₆) = (and_then_iff _ _).0 r₅ in
      let (durations, r₇) =
        (reject_iff
            (ltb max_window_secs cfg.window_secs || ltb max_dms_grace_secs cfg.dms_grace_secs)
            duration_exceeds_bound none).0
          r₆ in
      let (rc_distinct, rc_valid) = (recipient_caps_iff cfg self_addr).0 recipient_caps in
      let (ac_distinct, ac_valid) = (asset_caps_iff cfg self_addr).0 asset_caps in
      let (unseen, contracts, fns) = (protocols_iff [] cfg.protocols).0 protocols in
      let (short, calm) =
        or_false (ltb max_window_secs cfg.window_secs) (ltb max_dms_grace_secs cfg.dms_grace_secs)
          durations in
      record {
        scalar = (scalar_iff cfg).0 scalar;
        lists = (list_iff cfg self_addr).0 lists;
        recipient_caps_distinct = rc_distinct;
        recipient_caps = rc_valid;
        asset_caps_distinct = ac_distinct;
        asset_caps = ac_valid;
        disjoint = (disjoint_iff cfg.blocked_recipients cfg.recipients).0 disjoint;
        contracts_distinct = contracts;
        fns = fns;
        window_secs_bounded = ground arith;
        grace_bounded = ground arith;
      }

  rule_complete : IsValidConfig self_addr cfg → first_failing_rule self_addr cfg ≡ none
  unfolding first_failing_rule
  rule_complete v =
      let durations : (ltb max_window_secs cfg.window_secs
            || ltb max_dms_grace_secs cfg.dms_grace_secs)
          ≡ false =
        let a = v.window_secs_bounded in let b = v.grace_bounded in ground arith in
      rw (
        (scalar_iff cfg).1 v.scalar,
        (list_iff cfg self_addr).1 v.lists,
        (recipient_caps_iff cfg self_addr).1 (v.recipient_caps_distinct, v.recipient_caps),
        (asset_caps_iff cfg self_addr).1 (v.asset_caps_distinct, v.asset_caps),
        (disjoint_iff cfg.blocked_recipients cfg.recipients).1 v.disjoint,
        (protocols_iff [] cfg.protocols).1 (Unseen-none cfg.protocols, v.contracts_distinct, v.fns),
        durations,
      )

  -- No rule fails exactly when the policy is valid by the specification.
  pub first_failing_rule_iff :
      (first_failing_rule self_addr cfg ≡ none) ↔ IsValidConfig self_addr cfg
  first_failing_rule_iff = (rule_sound, rule_complete)
