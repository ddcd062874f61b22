-- ===== src/AgentTx/Flags/Collect.antt =====
-- What the loop over the flags keeps: a timeout above 0, and no expected block for a heartbeat.
use Prim.Native.String.{String}
use text.Mathlib.TextEquality.{eq_iff}
use stellar_agent_guard_cont.Common.{
  ℕ, ◌<◌, ◌≡◌, ◌≢◌, refl, sym, subst, true, false, Option, none, some, List, [], ◌∷◌, All,
  if◌then◌else◌, u64_max, ◌+◌, arith, Bool-cases, inl, inr,
}
use stellar_agent_guard_cont.Types.Policy.{sym_eq}
use stellar_agent_guard_cont.AgentTx.Text.{ok, err, codes, bind-ok, ok_injective}
use stellar_agent_guard_cont.AgentTx.Json.{parse_unsigned}
use stellar_agent_guard_cont.AgentTx.Flags.{
  Flag, help, guard, token, from, to, amount, inclusion_fee, secret, secret_file, network, rpc_url,
  passphrase, rpc_timeout, expect_blocked, json, unknown_flag, transfer_only, Collected, nonzero,
  nothing_collected, valid_flags_for_subcommand, has_text, flag_names, flag_in, flag_of, refusal,
  takes_value, switch, set_value, parse_rpc_timeout, with_timeout, check_flag, collect,
}

pub record IsKept (cmd : String) (st : Collected) : Type 0 where
  pub timeout_positive : 0 < st.timeout_arg
  pub no_block : sym_eq cmd "heartbeat" ≡ true → st.block_expected ≡ false

pub nothing_collected-IsKept : (cmd : String) → IsKept cmd nothing_collected
nothing_collected-IsKept cmd = record { timeout_positive = omega arith; no_block = λ _. refl }

nonzero-positive : (o : Option ℕ) (n : ℕ) → nonzero o ≡ some n → 0 < n
nonzero-positive none n h = absurd (cc h)
nonzero-positive (some m) n h = ground arith

parse_rpc_timeout-nonzero : (raw : String) (n : ℕ) → parse_rpc_timeout raw ≡ some n → 0 < n
unfolding parse_rpc_timeout
parse_rpc_timeout-nonzero raw n h = nonzero-positive (parse_unsigned (u64_max + 1) (codes raw)) n h

flag_in-expect_blocked :
    (names : List (String × Flag)) (f : String)
    → All (λ (p : String × Flag). p.1 ≡ expect_blocked → p.0 ≡ "--expect-blocked") names
    → flag_in names f ≡ expect_blocked
    → f ≡ "--expect-blocked"
unfolding flag_in
flag_in-expect_blocked [] f only h = absurd (cc h)
flag_in-expect_blocked ((name, flag) ∷ names) f only h =
    ground (arith, eq_iff f name, flag_in-expect_blocked names f only.1, only.0)

flag_of-expect_blocked : (f : String) → flag_of f ≡ expect_blocked → f ≡ "--expect-blocked"
flag_of-expect_blocked f h =
    flag_in-expect_blocked flag_names f
      (
        λ e. absurd (cc e),
        (
          λ e. absurd (cc e),
          (
            λ e. absurd (cc e),
            (
              λ e. absurd (cc e),
              (
                λ e. absurd (cc e),
                (
                  λ e. absurd (cc e),
                  (
                    λ e. absurd (cc e),
                    (
                      λ e. absurd (cc e),
                      (
                        λ e. absurd (cc e),
                        (
                          λ e. absurd (cc e),
                          (
                            λ e. absurd (cc e),
                            (
                              λ e. absurd (cc e),
                              (
                                λ e. absurd (cc e),
                                (
                                  λ e. absurd (cc e),
                                  (
                                    λ e. absurd (cc e),
                                    (λ e. absurd (cc e), (λ _. refl, (λ e. absurd (cc e), tt))),
                                  ),
                                ),
                              ),
                            ),
                          ),
                        ),
                      ),
                    ),
                  ),
                ),
              ),
            ),
          ),
        ),
      )
      h

heartbeat_refuses :
    check_flag "heartbeat" "--expect-blocked" ≡ err (transfer_only "--expect-blocked")
unfolding check_flag valid_flags_for_subcommand
heartbeat_refuses = refl

checked_is_flag : (cmd f : String) (flag : Flag) → check_flag cmd f ≡ ok flag → flag ≡ flag_of f
unfolding check_flag
checked_is_flag cmd f flag h =
    elim (has_text (valid_flags_for_subcommand cmd) f)
        as (λ b. (if b then ok (flag_of f) else err (refusal cmd f)) ≡ ok flag → flag ≡ flag_of f) [
          | true ↦ λ e. cc e
          | false ↦ λ e. absurd (cc e)
        ]
      h

-- A heartbeat does not take the flag.
check_flag-heartbeat :
    (cmd f : String) → sym_eq cmd "heartbeat" ≡ true → check_flag cmd f ≢ ok expect_blocked
check_flag-heartbeat cmd f h e =
    let named : cmd ≡ "heartbeat" = (eq_iff cmd "heartbeat").0 h in
    let given = flag_of-expect_blocked f (sym (checked_is_flag cmd f expect_blocked e)) in
    cc (e, named, given, heartbeat_refuses)

module _ (cmd : String) where
  switch-IsKept :
      (flag : Flag) (f : String) (st st' : Collected)
      → check_flag cmd f ≡ ok flag
      → IsKept cmd st
      → switch flag f st ≡ ok st'
      → IsKept cmd st'
  unfolding switch
  switch-IsKept expect_blocked f st st' c k h = record {
    timeout_positive = ground (arith, k.timeout_positive);
    no_block = λ beats. absurd (check_flag-heartbeat cmd f beats c);
  }
  switch-IsKept json f st st' c k h = ground (arith, k.timeout_positive)
  switch-IsKept help f st st' c k h = absurd (cc h)
  switch-IsKept guard f st st' c k h = absurd (cc h)
  switch-IsKept token f st st' c k h = absurd (cc h)
  switch-IsKept from f st st' c k h = absurd (cc h)
  switch-IsKept to f st st' c k h = absurd (cc h)
  switch-IsKept amount f st st' c k h = absurd (cc h)
  switch-IsKept inclusion_fee f st st' c k h = absurd (cc h)
  switch-IsKept secret f st st' c k h = absurd (cc h)
  switch-IsKept secret_file f st st' c k h = absurd (cc h)
  switch-IsKept network f st st' c k h = absurd (cc h)
  switch-IsKept rpc_url f st st' c k h = absurd (cc h)
  switch-IsKept passphrase f st st' c k h = absurd (cc h)
  switch-IsKept rpc_timeout f st st' c k h = absurd (cc h)
  switch-IsKept unknown_flag f st st' c k h = absurd (cc h)

  timeout-IsKept :
      (o : Option ℕ) (v : String) (st st' : Collected)
      → ((n : ℕ) → o ≡ some n → 0 < n)
      → IsKept cmd st
      → with_timeout o v st ≡ ok st'
      → IsKept cmd st'
  timeout-IsKept none v st st' pos k h = absurd (cc h)
  timeout-IsKept (some n) v st st' pos k h = ground (arith, pos n)

  set_value-IsKept :
      (flag : Flag) (f v : String) (st st' : Collected)
      → IsKept cmd st
      → set_value flag f v st ≡ ok st'
      → IsKept cmd st'
  unfolding set_value
  set_value-IsKept rpc_timeout f v st st' k h =
      timeout-IsKept (parse_rpc_timeout v) v st st' (parse_rpc_timeout-nonzero v) k h
  set_value-IsKept help f v st st' k h = absurd (cc h)
  set_value-IsKept guard f v st st' k h = ground (arith, k.timeout_positive)
  set_value-IsKept token f v st st' k h = ground (arith, k.timeout_positive)
  set_value-IsKept from f v st st' k h = ground (arith, k.timeout_positive)
  set_value-IsKept to f v st st' k h = ground (arith, k.timeout_positive)
  set_value-IsKept amount f v st st' k h = ground (arith, k.timeout_positive)
  set_value-IsKept inclusion_fee f v st st' k h = ground (arith, k.timeout_positive)
  set_value-IsKept secret f v st st' k h = ground (arith, k.timeout_positive)
  set_value-IsKept secret_file f v st st' k h = ground (arith, k.timeout_positive)
  set_value-IsKept network f v st st' k h = ground (arith, k.timeout_positive)
  set_value-IsKept rpc_url f v st st' k h = ground (arith, k.timeout_positive)
  set_value-IsKept passphrase f v st st' k h = ground (arith, k.timeout_positive)
  set_value-IsKept unknown_flag f v st st' k h = absurd (cc h)
  set_value-IsKept expect_blocked f v st st' k h = absurd (cc h)
  set_value-IsKept json f v st st' k h = absurd (cc h)

  pub collect-IsKept :
      (st : Collected) (argv : List String) (st' : Collected)
      → IsKept cmd st
      → collect cmd st argv ≡ ok st'
      → IsKept cmd st'
  unfolding collect
  collect-IsKept st [] st' k h = subst (IsKept cmd) (ok_injective st st' h) k
  collect-IsKept st (f ∷ []) st' k h =
      let (flag, checked, left) = bind-ok (check_flag cmd f) _ st' h in
      elim (Bool-cases (takes_value flag)) [
        | inl valued ↦ absurd (cc (rw valued at left))
        | inr alone ↦ switch-IsKept flag f st st' checked k (rw alone at left)
      ]
  collect-IsKept st (f ∷ v ∷ rest) st' k h =
      let (flag, checked, left) = bind-ok (check_flag cmd f) _ st' h in
      elim (Bool-cases (takes_value flag)) [
        | inl valued ↦
            let (next, done, onward) = bind-ok (set_value flag f v st) _ st' (rw valued at left) in
            collect-IsKept next rest st' (set_value-IsKept flag f v st next k done) onward
        | inr alone ↦
            let (next, done, onward) = bind-ok (switch flag f st) _ st' (rw alone at left) in
            collect-IsKept next (v ∷ rest) st' (switch-IsKept flag f st next checked k done) onward
      ]
