-- ===== src/AgentTx/Run/Submits.antt =====
-- What a run submits: a transaction that carries the very call and authorization that the simulation
-- admitted; and what an exit code of 0 means.
use stellar_agent_guard_cont.Common.{
  ℕ, zero, suc, ℤ, ◌≡◌, refl, sym, subst, true, false, Option, none, some, List, [], ◌∷◌, All,
  get_or_else, if◌then◌else◌, arith,
}
use stellar_agent_guard_cont.AgentTx.Text.{Result, ok, err}
use stellar_agent_guard_cont.AgentTx.Json.{Json, get, as_str, at_key}
use stellar_agent_guard_cont.AgentTx.Call.{Call, kind}
use stellar_agent_guard_cont.AgentTx.Footprint.{merge_guard_footprint}
use stellar_agent_guard_cont.AgentTx.Outcome.{RpcFailureKind}
use stellar_agent_guard_cont.AgentTx.Report.{simulation_error_message}
use stellar_agent_guard_cont.AgentTx.Envelope.{
  Envelope, TransactionData, AuthEntry, secret_to_seed, account_strkey, build_initial_envelope,
  sign_envelope,
}
use stellar_agent_guard_cont.AgentTx.Run.{
  Libraries, Args, Ran, stopped, auth_for, first_envelope, final_envelope, parsed_data, parsed_fee,
  unmet_run, polled, poll, polls, submitted, sending, submit_with, after_simulation, simulated,
  at_ledger, with_seq, with_seed, with_secret, run,
}

module _ (t : Libraries) where
  open t use {crypto, decode, shown}

  -- How `env` came to be submitted.
  pub record IsAdmitted (call : Call) (args : Args) (entropy : ℕ) (env : Envelope) : Type 0 where
    pub agent : crypto.SigningKey
    pub seq : ℤ
    pub latest : ℕ
    pub sim : Json
    pub txdata : TransactionData
    pub asked_seq : args.rpc.account_seq (account_strkey (crypto.verifying_key agent)) ≡ ok seq
    pub asked_ledger : args.rpc.latest_ledger ≡ ok latest
    -- the envelope that was simulated
    pub first : Envelope
    pub first_is :
        first
        ≡ first_envelope t call args seq (auth_for t call args latest entropy agent ∷ []) agent
    pub simulated_first : args.rpc.simulate first ≡ ok sim
    pub admitted : simulation_error_message shown sim ≡ none
    pub no_block_expected : args.expect_blocked ≡ false
    -- the submitted transaction
    pub same_operation : env.tx.operation ≡ first.tx.operation
    pub same_source : env.tx.source_account ≡ first.tx.source_account
    pub same_seq : env.tx.seq_num ≡ first.tx.seq_num
    pub merged :
        env.tx.ext.footprint ≡ merge_guard_footprint txdata.footprint args.guard (kind call)
    pub signed :
        env
        ≡ sign_envelope crypto
            (record { tx = env.tx; signatures = [] })
            (crypto.sha256 args.passphrase)
            agent

  polled-sent :
      (args : Args) (latest : ℕ) (env : Envelope) (hash : List ℕ) (rest : Ran)
      (r : Result RpcFailureKind Json)
      → rest.sent ≡ env ∷ []
      → (polled t args latest env hash rest r).sent ≡ env ∷ []
  polled-sent args latest env hash rest (err failure) h = ground arith
  polled-sent args latest env hash rest (ok answer) h = ground arith

  poll-sent :
      (args : Args) (latest : ℕ) (env : Envelope) (hash : List ℕ) (left i : ℕ)
      → (poll t args latest env hash left i).sent ≡ env ∷ []
  unfolding poll
  poll-sent args latest env hash zero i = refl
  poll-sent args latest env hash (suc left) i =
      polled-sent args latest env hash _ (args.rpc.get_tx hash i)
        (poll-sent args latest env hash left (suc i))

  submitted-sent :
      (args : Args) (latest : ℕ) (env : Envelope) (answer : Json) (o : Option Json)
      → (submitted t args latest env answer o).sent ≡ env ∷ []
  submitted-sent args latest env answer (some e) = refl
  submitted-sent args latest env answer none =
      let hash = get_or_else (as_str (at_key answer "hash")) [] in
      ground (arith, poll-sent args latest env hash polls 0)

  sending-sent :
      (args : Args) (latest : ℕ) (env : Envelope) (r : Result RpcFailureKind Json)
      → (sending t args latest env r).sent ≡ env ∷ []
  sending-sent args latest env (err failure) = refl
  sending-sent args latest env (ok answer) =
      submitted-sent args latest env answer (get answer "error")

  module _ (call : Call) (args : Args) (entropy : ℕ) where
    stopped-IsAdmitted : (code : Option ℕ) → All (IsAdmitted call args entropy) (stopped code).sent
    stopped-IsAdmitted none = tt
    stopped-IsAdmitted (some code) = tt

    module _ (agent : crypto.SigningKey) (seq : ℤ) (latest : ℕ)
        (asked_seq : args.rpc.account_seq (account_strkey (crypto.verifying_key agent)) ≡ ok seq)
        (asked_ledger : args.rpc.latest_ledger ≡ ok latest) where
      abbrev auth : List AuthEntry
      auth = auth_for t call args latest entropy agent ∷ []

      module _ (sim : Json)
          (simulated_first : args.rpc.simulate (first_envelope t call args seq auth agent)
            ≡ ok sim) where
        submit_with-IsAdmitted :
            simulation_error_message shown sim ≡ none
            → args.expect_blocked ≡ false
            → (txdata : Option TransactionData) (fee : Option ℕ)
            → All
                (IsAdmitted call args entropy)
                (submit_with t call args seq latest auth agent txdata fee).sent
        unfolding sign_envelope build_initial_envelope
        submit_with-IsAdmitted admitted unexpected none fee = tt
        submit_with-IsAdmitted admitted unexpected (some txdata) none = tt
        submit_with-IsAdmitted admitted unexpected (some txdata) (some fee) =
            let env = final_envelope t call args seq auth agent txdata fee in
            subst (All (IsAdmitted call args entropy))
              (sym (sending-sent args latest env (args.rpc.send env)))
              (
                record {
                  agent = agent;
                  seq = seq;
                  latest = latest;
                  sim = sim;
                  txdata = txdata;
                  asked_seq = asked_seq;
                  asked_ledger = asked_ledger;
                  first = first_envelope t call args seq auth agent;
                  first_is = refl;
                  simulated_first = simulated_first;
                  admitted = admitted;
                  no_block_expected = unexpected;
                  same_operation = refl;
                  same_source = refl;
                  same_seq = refl;
                  merged = refl;
                  signed = refl;
                },
                tt,
              )

        after_simulation-IsAdmitted :
            (message : Option (List ℕ))
            → simulation_error_message shown sim ≡ message
            → All
                (IsAdmitted call args entropy)
                (after_simulation t call args seq latest auth agent sim message).sent
        after_simulation-IsAdmitted (some message) e = tt
        after_simulation-IsAdmitted none e =
            let data_of = parsed_data t (as_str (at_key sim "transactionData")) in
            let fee_of = parsed_fee t (as_str (at_key sim "minResourceFee")) in
            elim args.expect_blocked
                as (λ b.
                  args.expect_blocked ≡ b
                  → All (IsAdmitted call args entropy)
                      (if b
                        then unmet_run t args latest
                        else submit_with t call args seq latest auth agent data_of fee_of).sent) [
                          | true ↦ λ _. tt
                          | false ↦ λ unexpected. submit_with-IsAdmitted e unexpected data_of fee_of
                        ]
              refl

      simulated-IsAdmitted :
          (r : Result (Option ℕ) Json)
          → args.rpc.simulate (first_envelope t call args seq auth agent) ≡ r
          → All (IsAdmitted call args entropy) (simulated t call args seq latest auth agent r).sent
      simulated-IsAdmitted (err code) e = stopped-IsAdmitted code
      simulated-IsAdmitted (ok sim) e =
          after_simulation-IsAdmitted sim e (simulation_error_message shown sim) refl

    module _ (agent : crypto.SigningKey) where
      at_ledger-IsAdmitted :
          (seq : ℤ) (r : Result (Option ℕ) ℕ)
          → args.rpc.account_seq (account_strkey (crypto.verifying_key agent)) ≡ ok seq
          → args.rpc.latest_ledger ≡ r
          → All (IsAdmitted call args entropy) (at_ledger t call args entropy seq agent r).sent
      at_ledger-IsAdmitted seq (err code) e e' = stopped-IsAdmitted code
      at_ledger-IsAdmitted seq (ok latest) e e' = simulated-IsAdmitted agent seq latest e e' _ refl

      with_seq-IsAdmitted :
          (r : Result (Option ℕ) ℤ)
          → args.rpc.account_seq (account_strkey (crypto.verifying_key agent)) ≡ r
          → All (IsAdmitted call args entropy) (with_seq t call args entropy agent r).sent
      with_seq-IsAdmitted (err code) e = stopped-IsAdmitted code
      with_seq-IsAdmitted (ok seq) e = at_ledger-IsAdmitted seq args.rpc.latest_ledger e refl

    with_seed-IsAdmitted :
        (seed : Option (List ℕ))
        → All (IsAdmitted call args entropy) (with_seed t call args entropy seed).sent
    with_seed-IsAdmitted none = tt
    with_seed-IsAdmitted (some seed) = with_seq-IsAdmitted (crypto.from_seed seed) _ refl

    with_secret-IsAdmitted :
        (secret : Option (List ℕ))
        → All (IsAdmitted call args entropy) (with_secret t call args entropy secret).sent
    with_secret-IsAdmitted none = tt
    with_secret-IsAdmitted (some secret) = with_seed-IsAdmitted (secret_to_seed secret)

  pub run-IsAdmitted :
      (call : Call) (args : Args) (entropy : ℕ)
      → All (IsAdmitted call args entropy) (run t call args entropy).sent
  unfolding run
  run-IsAdmitted call args entropy = with_secret-IsAdmitted call args entropy args.secret
