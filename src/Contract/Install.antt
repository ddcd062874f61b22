-- ===== src/Contract/Install.antt =====
-- When `set_policy` and `set_paused` of src/lib.rs succeed, and all that they change.
use stellar_agent_guard_cont.Common.{
  ◌≡◌, refl, sym, ap, ◌∙◌, inl, inr, ◌↔◌, Bool, true, none, some, [], ◌∷◌, ◌++◌, is_some, u64_add,
  arith, Bool-cases, Option-cases, if◌then◌else◌,
}
use stellar_agent_guard_cont.Types.Policy.{Address, PolicyConfig}
use stellar_agent_guard_cont.Window.Ledger.{empty, to_state}
use stellar_agent_guard_cont.Contract.Storage.{
  Storage, Env, done, revision, policy_set_by, paused_by, resumed_by,
}
use stellar_agent_guard_cont.Contract.Validate.{first_failing_rule, validate_config}
use stellar_agent_guard_cont.Contract.Validate.Spec.{IsValidConfig}
use stellar_agent_guard_cont.Contract.Validate.Sound.{first_failing_rule_iff}
use stellar_agent_guard_cont.Contract.Admin.{set_policy, set_paused, bool_eq}

-- An administrator is set and consents.
abbrev pub Consents : Env → Storage → Address → Type 0
Consents env s admin = (s.admin ≡ some admin) × (env.authorizes admin ≡ true)

-- The storage with a new policy. The window and the heartbeat start anew where there was no policy.
abbrev pub with_policy : PolicyConfig → Address → Env → Storage → Storage
with_policy cfg admin env s = record s {
  policy = some cfg;
  policy_revision = some (u64_add (revision s) 1);
  window = (if is_some s.policy then s.window else some (to_state empty));
  last_heartbeat = (if is_some s.policy then s.last_heartbeat else some env.now);
  events = s.events ++ policy_set_by admin (u64_add (revision s) 1) ∷ [];
}

pub validate_config_iff :
    (self_addr : Address) (cfg : PolicyConfig)
    → (validate_config self_addr cfg ≡ none) ↔ IsValidConfig self_addr cfg
unfolding validate_config
validate_config_iff self_addr cfg =
    let rules = first_failing_rule_iff self_addr cfg in
    elim (Option-cases (first_failing_rule self_addr cfg)) [
      | inl none_fails ↦ (λ e. rules.0 none_fails, λ v. rw none_fails refl)
      | inr (rule, fails) ↦
          (λ e. absurd (ground arith), λ v. let passes = rules.1 v in absurd (ground arith))
    ]

module _ (cfg : PolicyConfig) (env : Env) (s s' : Storage) where
  -- What a successful `set_policy` goes by, and what it leaves.
  pub record IsInstalled : Type 0 where
    pub admin : Address
    pub consents : Consents env s admin
    pub valid : IsValidConfig env.self_addr cfg
    pub after : s' ≡ with_policy cfg admin env s

  set_policy-after :
      (admin : Address)
      → Consents env s admin
      → validate_config env.self_addr cfg ≡ none
      → set_policy cfg env s ≡ done tt (with_policy cfg admin env s)
  unfolding set_policy
  set_policy-after admin (known, consent) valid = elim (Bool-cases (is_some s.policy)) [
    | inl edit ↦ ground arith
    | inr first ↦ ground arith
  ]

  set_policy_known :
      set_policy cfg env s ≡ done tt s'
      → (admin : Address) × Consents env s admin × (validate_config env.self_addr cfg ≡ none)
  unfolding set_policy
  set_policy_known r = elim (Option-cases s.admin) [
    | inl unset ↦ absurd (ground arith)
    | inr (admin, known) ↦ elim (Option-cases (validate_config env.self_addr cfg)) [
      | inl valid ↦ (admin, (known, ground arith), valid)
      | inr (e, invalid) ↦ absurd (ground arith)
    ]
  ]

  -- `set_policy` succeeds exactly when the administrator consents and the policy is valid. It stores the
  -- policy and raises the revision; a first install also starts an empty window and the heartbeat's
  -- clock, and an edit keeps the window and the clock as they were. Nothing else changes but the event.
  pub set_policy_iff : (set_policy cfg env s ≡ done tt s') ↔ IsInstalled
  set_policy_iff =
      let validated = validate_config_iff env.self_addr cfg in
      (
        λ r.
            let (admin, consents, valid) = set_policy_known r in
            record {
              admin = admin;
              consents = consents;
              valid = validated.0 valid;
              after =
                  let effect = set_policy-after admin consents valid in ground (arith, r, effect);
            },
        λ i. set_policy-after i.admin i.consents (validated.1 i.valid) ∙ ap (done tt) (sym i.after),
      )

-- The storage after `pause` or `resume`.
abbrev pub with_paused : Bool → PolicyConfig → Address → Storage → Storage
with_paused paused cfg admin s =
    let same = bool_eq cfg.paused paused in
    let rev = (if same then revision s else u64_add (revision s) 1) in
    record s {
      policy = (if same then s.policy else some (record cfg { paused = paused }));
      policy_revision = (if same then s.policy_revision else some rev);
      events = s.events ++ (if paused then paused_by admin rev else resumed_by admin rev) ∷ [];
    }

-- `pause` and `resume` succeed exactly when the administrator consents and a policy is installed. They
-- change its flag and raise the revision if the flag was not as wanted, and else publish an event only.
pub set_paused_iff :
    (paused : Bool) (env : Env) (s s' : Storage)
    → (set_paused paused env s ≡ done tt s') ↔ (
        (admin : Address) × (cfg : PolicyConfig) × Consents env s admin
        × (s.policy ≡ some cfg)
        × (s' ≡ with_paused paused cfg admin s))
unfolding set_paused
set_paused_iff paused env s s' = (
  λ r. elim (Option-cases s.admin) [
    | inl unset ↦ absurd (ground arith)
    | inr (admin, known) ↦ elim (Option-cases s.policy) [
      | inl absent ↦ absurd (ground arith)
      | inr (cfg, installed) ↦ (admin, cfg, (known, ground arith), installed, ground arith)
    ]
  ],
  λ (admin, cfg, (known, consent), installed, after). ground arith,
)

-- An edit of an installed policy keeps the stored window.
pub set_policy-window :
    (cfg : PolicyConfig) (env : Env) (s s' : Storage) (old : PolicyConfig)
    → s.policy ≡ some old
    → set_policy cfg env s ≡ done tt s'
    → (s'.window ≡ s.window) × (s'.policy ≡ some cfg)
set_policy-window cfg env s s' old installed r =
    let i = (set_policy_iff cfg env s s').0 r in
    let edit : is_some s.policy ≡ true = ap is_some installed in
    (
      ap (λ (t : Storage). t.window) i.after
          ∙ ap (λ (b : Bool). if b then s.window else some (to_state empty)) edit,
      ap (λ (t : Storage). t.policy) i.after,
    )
