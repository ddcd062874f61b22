-- ===== src/AgentTx/Run/Preflight.antt =====
-- `preflight` of tools/agent-tx/src/main.rs: the simulation alone, signed or not, and its exit code.
use stellar_agent_guard_cont.Common.{
  ℕ, ℤ, ◌≡◌, refl, ◌⊎◌, inl, inr, Bool, true, false, ◌&&◌, Option, none, some, List, [], ◌∷◌, arith,
  is_some, if◌then◌else◌,
}
use stellar_agent_guard_cont.AgentTx.Text.{Result, ok, err}
use stellar_agent_guard_cont.AgentTx.Json.{Json, at_key, as_str}
use stellar_agent_guard_cont.AgentTx.Call.{Call, kind, invocation}
use stellar_agent_guard_cont.AgentTx.Report.{
  RunReport, complete, failed_report, simulation_report, simulation_error_message,
  is_guard_auth_checked_block,
}
use stellar_agent_guard_cont.AgentTx.Envelope.{
  Envelope, AuthEntry, secret_to_seed, account_strkey, invoke_op, build_initial_envelope,
}
use stellar_agent_guard_cont.AgentTx.Run.{Libraries, Args, auth_for, next_seq, parsed_fee}

-- A report with an exit code, or an earlier end: an exit code of the RPC, or a panic.
pub data Preflighted : Type 0 where
  ends : RunReport → ℕ → Preflighted
  stops : Option ℕ → Preflighted

module _ (t : Libraries) where
  open t use {crypto, decode, shown}

  abbrev code_of_error : Bool → Bool → Bool → ℕ
  code_of_error block expected signed = if block && expected then 0 else if signed then 1 else 2

  abbrev quoted : Bool → RunReport → Option ℕ → Preflighted
  quoted signed report none = stops none
  quoted signed report (some min_fee) = ends report (if signed then 0 else 2)

  abbrev answered : Args → Bool → RunReport → Json → Option (List ℕ) → Preflighted
  answered args signed report sim (some message) =
      ends report (
        code_of_error (is_guard_auth_checked_block decode sim args.guard) args.expect_blocked
          signed)
  answered args signed report sim none =
      quoted signed report (parsed_fee t (as_str (at_key sim "minResourceFee")))

  abbrev report_of : Bool → Json → RunReport
  report_of signed sim =
      if signed then simulation_report decode sim else failed_report "unsigned_simulation"

  abbrev of_simulation : Args → Bool → ℕ → Result (Option ℕ) Json → Preflighted
  of_simulation args signed latest (err code) = stops code
  of_simulation args signed latest (ok sim) =
      answered args signed (complete args.network (report_of signed sim) (some latest)) sim
        (simulation_error_message shown sim)

  abbrev preflight_envelope : Call → Args → ℤ → List AuthEntry → List ℕ → Envelope
  preflight_envelope call args seq auth source =
      build_initial_envelope source (next_seq seq) (invoke_op (invocation call args.guard) auth)
        args.guard (kind call)

  -- A signed run carries an entry for the call, an unsigned one none.
  abbrev auth_entries : Call → Args → ℕ → ℕ → Option crypto.SigningKey → List AuthEntry
  auth_entries call args latest entropy none = []
  auth_entries call args latest entropy (some agent) =
      auth_for t call args latest entropy agent ∷ []

  abbrev of_ledger :
      Call → Args → ℕ → Option crypto.SigningKey → List ℕ → ℤ → Result (Option ℕ) ℕ → Preflighted
  of_ledger call args entropy agent source seq (err code) = stops code
  of_ledger call args entropy agent source seq (ok latest) =
      of_simulation args (is_some agent) latest (
        args.rpc.simulate
          (preflight_envelope call args seq (auth_entries call args latest entropy agent) source))

  abbrev of_seq :
      Call → Args → ℕ → Option crypto.SigningKey → List ℕ → Result (Option ℕ) ℤ → Preflighted
  of_seq call args entropy agent source (err code) = stops code
  of_seq call args entropy agent source (ok seq) =
      of_ledger call args entropy agent source seq args.rpc.latest_ledger

  abbrev of_source : Call → Args → ℕ → Option crypto.SigningKey → List ℕ → Preflighted
  of_source call args entropy agent source =
      of_seq call args entropy agent source (args.rpc.account_seq (account_strkey source))

  abbrev of_seed : Call → Args → ℕ → Option (List ℕ) → Preflighted
  of_seed call args entropy none = stops (some 1)
  of_seed call args entropy (some seed) =
      let agent = crypto.from_seed seed in
      of_source call args entropy (some agent) (crypto.verifying_key agent)

  abbrev of_pubkey : Call → Args → ℕ → Result (Option ℕ) (List ℕ) → Preflighted
  of_pubkey call args entropy (err code) = stops code
  of_pubkey call args entropy (ok source) = of_source call args entropy none source

  abbrev of_secret : Call → Args → ℕ → Option (List ℕ) → Preflighted
  of_secret call args entropy none =
      of_pubkey call args entropy (args.rpc.registered_agent_pubkey args.guard)
  of_secret call args entropy (some secret) = of_seed call args entropy (secret_to_seed secret)

  unfoldable pub preflight : Call → Args → ℕ → Preflighted
  preflight call args entropy = of_secret call args entropy args.secret

  -- What an exit code of 0 says.
  abbrev pub EndsWell : Args → Bool → Preflighted → Type 0
  EndsWell args signed p =
      (report : RunReport)
      → p ≡ ends report 0
      → (env : Envelope) × (sim : Json) × (args.rpc.simulate env ≡ ok sim)
        × (((signed ≡ true) × (simulation_error_message shown sim ≡ none))
            ⊎ ((args.expect_blocked ≡ true)
                × (is_guard_auth_checked_block decode sim args.guard ≡ true)))

  zero_code : (r r' : RunReport) (code : ℕ) → ends r code ≡ ends r' 0 → code ≡ 0
  zero_code r r' code h = cc h

  code_of_error-zero :
      (block expected signed : Bool)
      → code_of_error block expected signed ≡ 0
      → (expected ≡ true) × (block ≡ true)
  code_of_error-zero true true signed h = (refl, refl)
  code_of_error-zero true false signed h = absurd (ground arith)
  code_of_error-zero false expected signed h = absurd (ground arith)

  quoted-signed :
      (signed : Bool) (r r' : RunReport) (fee : Option ℕ)
      → quoted signed r fee ≡ ends r' 0
      → signed ≡ true
  quoted-signed true r r' fee h = refl
  quoted-signed false r r' none h = absurd (cc h)
  quoted-signed false r r' (some fee) h = absurd (ground (arith, zero_code r r' 2 h))

  module _ (args : Args) (signed : Bool) where
    stops-EndsWell : (code : Option ℕ) → EndsWell args signed (stops code)
    stops-EndsWell code report h = absurd (cc h)

    answered-EndsWell :
        (r : RunReport) (env : Envelope) (sim : Json) (message : Option (List ℕ))
        → args.rpc.simulate env ≡ ok sim
        → simulation_error_message shown sim ≡ message
        → EndsWell args signed (answered args signed r sim message)
    answered-EndsWell r env sim none e m report h =
        (env, sim, e, inl (quoted-signed signed r report _ h, m))
    answered-EndsWell r env sim (some message) e m report h =
        (env, sim, e, inr (code_of_error-zero _ _ signed (zero_code r report _ h)))

    of_simulation-EndsWell :
        (latest : ℕ) (env : Envelope) (o : Result (Option ℕ) Json)
        → args.rpc.simulate env ≡ o
        → EndsWell args signed (of_simulation args signed latest o)
    of_simulation-EndsWell latest env (err code) e = stops-EndsWell code
    of_simulation-EndsWell latest env (ok sim) e =
        answered-EndsWell _ env sim (simulation_error_message shown sim) e refl

  module _ (call : Call) (args : Args) (entropy : ℕ) where
    of_source-EndsWell :
        (agent : Option crypto.SigningKey) (source : List ℕ)
        → EndsWell args (is_some agent) (of_source call args entropy agent source)
    of_source-EndsWell agent source = from_seq (args.rpc.account_seq (account_strkey source))
      where
        from_ledger :
            (seq : ℤ) (o : Result (Option ℕ) ℕ)
            → EndsWell args (is_some agent) (of_ledger call args entropy agent source seq o)
        from_ledger seq (err code) = stops-EndsWell args (is_some agent) code
        from_ledger seq (ok latest) =
            of_simulation-EndsWell args (is_some agent) latest
              (preflight_envelope call args seq (auth_entries call args latest entropy agent)
                source)
              _ refl

        from_seq :
            (o : Result (Option ℕ) ℤ)
            → EndsWell args (is_some agent) (of_seq call args entropy agent source o)
        from_seq (err code) = stops-EndsWell args (is_some agent) code
        from_seq (ok seq) = from_ledger seq args.rpc.latest_ledger

    of_seed-EndsWell :
        (seed : Option (List ℕ)) → EndsWell args true (of_seed call args entropy seed)
    of_seed-EndsWell none = stops-EndsWell args true (some 1)
    of_seed-EndsWell (some seed) =
        of_source-EndsWell (some (crypto.from_seed seed))
          (crypto.verifying_key (crypto.from_seed seed))

    of_pubkey-EndsWell :
        (o : Result (Option ℕ) (List ℕ)) → EndsWell args false (of_pubkey call args entropy o)
    of_pubkey-EndsWell (err code) = stops-EndsWell args false code
    of_pubkey-EndsWell (ok source) = of_source-EndsWell none source

    of_secret-EndsWell :
        (secret : Option (List ℕ))
        → EndsWell args (is_some secret) (of_secret call args entropy secret)
    of_secret-EndsWell none = of_pubkey-EndsWell (args.rpc.registered_agent_pubkey args.guard)
    of_secret-EndsWell (some secret) = of_seed-EndsWell (secret_to_seed secret)

    -- A preflight that ends with a report and the exit code 0 either was signed, and a simulation ended
    -- without an error; or a block by the guard's policy was expected, and the simulation had one.
    pub preflight-EndsWell : EndsWell args (is_some args.secret) (preflight call args entropy)
    unfolding preflight
    preflight-EndsWell = of_secret-EndsWell args.secret
