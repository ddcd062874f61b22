-- ===== src/AgentTx/Run.antt =====
-- `run` and `preflight` of tools/agent-tx/src/main.rs: a call is simulated, and submitted if the simulation
-- admits it.
pub mod Submits
pub mod Exit
pub mod Preflight
use Prim.Native.Nat.{◌^◌, min}
use stellar_agent_guard_cont.Common.{
  ℕ, zero, suc, ◌+◌, ◌-◌, ℤ, pos, negsuc, sub_ℕ, leb_ℤ, Bool, true, false, not, ◌&&◌, ◌||◌, Option,
  none, some, List, [], ◌∷◌, u32_max, if◌then◌else◌, get_or_else,
}
use stellar_agent_guard_cont.Types.Policy.{Address}
use stellar_agent_guard_cont.AgentTx.Text.{Result, ok, err, codes, text_eq, contains_text}
use stellar_agent_guard_cont.AgentTx.Network.{Network}
use stellar_agent_guard_cont.AgentTx.Json.{Json, get, at_key, as_str, parse_unsigned}
use stellar_agent_guard_cont.AgentTx.Call.{Call, kind, invocation, auth_nonce}
use stellar_agent_guard_cont.AgentTx.Footprint.{merge_guard_footprint}
use stellar_agent_guard_cont.AgentTx.Fees.{calculate_fee, resolve_inclusion_fee, bump_resource_fee}
use stellar_agent_guard_cont.AgentTx.Outcome.{
  RpcFailureKind, rpc_exit_code, is_timeout, RunOutcome, simulation_blocked,
  simulation_success_unexpected_block, send_error, empty_hash, transaction_success,
  transaction_failure, transaction_timeout,
}
use stellar_agent_guard_cont.AgentTx.Report.{
  RunReport, DiagnosticEvent, allowed_report, failed_report, with_tx_hash, complete,
  simulation_report, simulation_error_message, simulation_events, is_guard_auth_checked_block,
  nonempty,
}
use stellar_agent_guard_cont.AgentTx.Envelope.{
  Crypto, Envelope, Transaction, TransactionData, Operation, AuthEntry, secret_to_seed,
  account_strkey, invoke_op, build_initial_envelope, build_auth_entry, sign_envelope,
}

-- The advice on a refused submission, without the words around it.
pub data Advice : Type 0 where
  insufficient_fee bad_seq too_early late_expiration : Advice
  unrecognized : List ℕ → Advice

unfoldable pub map_submission_error : List ℕ → Advice
map_submission_error error =
    if contains_text error (codes "tx_insufficient_fee")
      || contains_text error (codes "insufficient")
    then insufficient_fee
    else if contains_text error (codes "tx_bad_seq") || contains_text error (codes "seq")
    then bad_seq
    else if contains_text error (codes "tx_too_early")
    then too_early
    else if contains_text error (codes "tx_late_expiration")
    then late_expiration
    else unrecognized error

-- The methods of the RPC. An error of an optional number ends the tool with an exit code, `none` a panic;
-- the answer of `get_tx` may differ from one poll to the next.
pub record Rpc : Type 0 where
  pub account_seq : List ℕ → Result (Option ℕ) ℤ
  pub latest_ledger : Result (Option ℕ) ℕ
  pub simulate : Envelope → Result (Option ℕ) Json
  pub inclusion_fee : Result RpcFailureKind (Option ℕ)
  pub send : Envelope → Result RpcFailureKind Json
  pub get_tx : List ℕ → ℕ → Result RpcFailureKind Json
  pub registered_agent_pubkey : Address → Result (Option ℕ) (List ℕ)

pub record Args : Type 0 where
  pub rpc : Rpc
  pub passphrase : List ℕ
  pub guard : Address
  pub secret : Option (List ℕ)
  pub expect_blocked : Bool
  pub network : Option Network
  pub inclusion_fee_override : Option ℕ

pub data Ended : Type 0 where
  outcome : RunOutcome → Ended
  exits : ℕ → Ended
  panics : Ended

-- What a run submitted, what it reported, and how it ended.
pub record Ran : Type 0 where
  pub sent : List Envelope
  pub reports : List RunReport
  pub ended : Ended

abbrev pub stopped : Option ℕ → Ran
stopped none = record { sent = []; reports = []; ended = panics }
stopped (some code) = record { sent = []; reports = []; ended = exits code }

-- `saturating_add(1)` of an `i64`
abbrev pub next_seq : ℤ → ℤ
next_seq (pos n) = pos (min (n + 1) (2 ^ 63 - 1))
next_seq (negsuc n) = sub_ℕ 1 (suc n)

-- `latest.saturating_add(10_000)`
abbrev pub expiration : ℕ → ℕ
expiration latest = min (latest + 10_000) u32_max

-- The libraries that a run uses, and the words around an advice.
pub record Libraries : Type 1 where
  pub crypto : Crypto
  pub decode : List ℕ → Option DiagnosticEvent
  pub shown : Json → List ℕ
  pub parse_data : List ℕ → Option TransactionData
  pub advice_text : Advice → List ℕ

abbrev pub polls : ℕ
polls = 20

abbrev pub status_of : Json → List ℕ
status_of answer = get_or_else (as_str (at_key answer "status")) (codes "PENDING")

module _ (t : Libraries) where
  open t use {crypto, decode, shown, parse_data, advice_text}

  -- The entry that authorizes the call, with its nonce.
  abbrev pub auth_for : Call → Args → ℕ → ℕ → crypto.SigningKey → AuthEntry
  auth_for call args latest entropy agent =
      build_auth_entry crypto args.guard (invocation call args.guard) (auth_nonce latest entropy)
        (expiration latest) (crypto.sha256 args.passphrase) agent

  -- The envelope that is simulated.
  abbrev pub first_envelope : Call → Args → ℤ → List AuthEntry → crypto.SigningKey → Envelope
  first_envelope call args seq auth agent =
      build_initial_envelope (crypto.verifying_key agent) (next_seq seq)
        (invoke_op (invocation call args.guard) auth) args.guard (kind call)

  abbrev pub blocked_run : Call → Args → ℕ → Json → List ℕ → Ran
  blocked_run call args latest sim message = record {
    sent = [];
    reports = complete args.network (simulation_report decode sim) (some latest) ∷ [];
    ended = outcome (
        simulation_blocked (is_guard_auth_checked_block decode sim args.guard)
          (as_str (at_key (at_key sim "error") "code")) (some message) (simulation_events sim));
  }

  abbrev pub unmet_run : Args → ℕ → Ran
  unmet_run args latest = record {
    sent = [];
    reports = complete args.network (failed_report "expect_block_unmet") (some latest) ∷ [];
    ended = outcome simulation_success_unexpected_block;
  }

  -- A run that submitted `env`, with its report.
  abbrev pub sent_run : Args → ℕ → Envelope → RunReport → RunOutcome → Ran
  sent_run args latest env report o = record {
    sent = env ∷ [];
    reports = complete args.network report (some latest) ∷ [];
    ended = outcome o;
  }

  abbrev pub sent_exit : Envelope → RpcFailureKind → Ran
  sent_exit env failure = record {
    sent = env ∷ [];
    reports = [];
    ended = exits (rpc_exit_code failure);
  }

  -- One poll: `rest` is what the later ones give.
  abbrev pub polled : Args → ℕ → Envelope → List ℕ → Ran → Result RpcFailureKind Json → Ran
  polled args latest env hash rest (err failure) =
      if is_timeout failure then rest else sent_exit env failure
  polled args latest env hash rest (ok answer) =
      if text_eq (status_of answer) (codes "SUCCESS")
      then sent_run args latest env (with_tx_hash allowed_report hash)
          (transaction_success hash (status_of answer))
      else if text_eq (status_of answer) (codes "FAILED")
      then sent_run args latest env (with_tx_hash (failed_report "tx_failed") hash)
          (transaction_failure hash (as_str (at_key answer "resultXdr")))
      else rest

  -- The polls that are left, from number `i` on.
  unfoldable pub poll : Args → ℕ → Envelope → List ℕ → ℕ → ℕ → Ran
  poll args latest env hash zero i =
      sent_run args latest env (with_tx_hash (failed_report "timeout") hash)
        (transaction_timeout hash)
  poll args latest env hash (suc left) i =
      polled args latest env hash (poll args latest env hash left (suc i)) (args.rpc.get_tx hash i)

  -- The answer to the submission.
  abbrev pub submitted : Args → ℕ → Envelope → Json → Option Json → Ran
  submitted args latest env answer (some error) =
      sent_run args latest env (failed_report "submission_failed")
        (send_error (advice_text (map_submission_error (shown error))))
  submitted args latest env answer none =
      let hash = get_or_else (as_str (at_key answer "hash")) [] in
      if nonempty hash
      then poll args latest env hash polls 0
      else sent_run args latest env (failed_report "submission_failed")
          (empty_hash (advice_text (map_submission_error (shown answer))))

  abbrev pub sending : Args → ℕ → Envelope → Result RpcFailureKind Json → Ran
  sending args latest env (err failure) = sent_exit env failure
  sending args latest env (ok answer) = submitted args latest env answer (get answer "error")

  -- The transaction that is submitted: the simulated one, with the merged footprint and the fees.
  abbrev pub final_envelope :
      Call → Args → ℤ → List AuthEntry → crypto.SigningKey → TransactionData → ℕ → Envelope
  final_envelope call args seq auth agent txdata min_fee =
      let fees = resolve_inclusion_fee args.inclusion_fee_override args.rpc.inclusion_fee in
      sign_envelope crypto
        (record {
          tx = record {
            source_account = crypto.verifying_key agent;
            fee = calculate_fee min_fee fees.0;
            seq_num = next_seq seq;
            operation = invoke_op (invocation call args.guard) auth;
            ext = record txdata {
              footprint = merge_guard_footprint txdata.footprint args.guard (kind call);
              resource_fee = bump_resource_fee txdata.resource_fee;
            };
          };
          signatures = [];
        })
        (crypto.sha256 args.passphrase) agent

  abbrev pub parsed_fee : Option (List ℕ) → Option ℕ
  parsed_fee none = none
  parsed_fee (some fee) = parse_unsigned (u32_max + 1) fee

  abbrev pub parsed_data : Option (List ℕ) → Option TransactionData
  parsed_data none = none
  parsed_data (some encoded) = parse_data encoded

  -- A simulation without the data or the fee is a panic.
  abbrev pub submit_with :
      Call
      → Args
      → ℤ
      → ℕ
      → List AuthEntry
      → crypto.SigningKey
      → Option TransactionData
      → Option ℕ
      → Ran
  submit_with call args seq latest auth agent (some txdata) (some min_fee) =
      let env = final_envelope call args seq auth agent txdata min_fee in
      sending args latest env (args.rpc.send env)
  submit_with call args seq latest auth agent _ _ = stopped none

  abbrev pub after_simulation :
      Call → Args → ℤ → ℕ → List AuthEntry → crypto.SigningKey → Json → Option (List ℕ) → Ran
  after_simulation call args seq latest auth agent sim (some message) =
      blocked_run call args latest sim message
  after_simulation call args seq latest auth agent sim none =
      if args.expect_blocked
      then unmet_run args latest
      else submit_with call args seq latest auth agent
          (parsed_data (as_str (at_key sim "transactionData")))
          (parsed_fee (as_str (at_key sim "minResourceFee")))

  abbrev pub simulated :
      Call → Args → ℤ → ℕ → List AuthEntry → crypto.SigningKey → Result (Option ℕ) Json → Ran
  simulated call args seq latest auth agent (err code) = stopped code
  simulated call args seq latest auth agent (ok sim) =
      after_simulation call args seq latest auth agent sim (simulation_error_message shown sim)

  abbrev pub at_ledger : Call → Args → ℕ → ℤ → crypto.SigningKey → Result (Option ℕ) ℕ → Ran
  at_ledger call args entropy seq agent (err code) = stopped code
  at_ledger call args entropy seq agent (ok latest) =
      let auth = auth_for call args latest entropy agent ∷ [] in
      simulated call args seq latest auth agent
        (args.rpc.simulate (first_envelope call args seq auth agent))

  abbrev pub with_seq : Call → Args → ℕ → crypto.SigningKey → Result (Option ℕ) ℤ → Ran
  with_seq call args entropy agent (err code) = stopped code
  with_seq call args entropy agent (ok seq) =
      at_ledger call args entropy seq agent args.rpc.latest_ledger

  abbrev pub with_seed : Call → Args → ℕ → Option (List ℕ) → Ran
  with_seed call args entropy none = stopped (some 1)
  with_seed call args entropy (some seed) =
      let agent = crypto.from_seed seed in
      with_seq call args entropy agent
        (args.rpc.account_seq (account_strkey (crypto.verifying_key agent)))

  abbrev pub with_secret : Call → Args → ℕ → Option (List ℕ) → Ran
  with_secret call args entropy none = stopped (some 1)
  with_secret call args entropy (some secret) = with_seed call args entropy (secret_to_seed secret)

  -- `entropy` is what the secure random numbers give.
  unfoldable pub run : Call → Args → ℕ → Ran
  run call args entropy = with_secret call args entropy args.secret
