-- ===== src/Scenarios/Runs.antt =====
-- Runs and requests of the command line tool.
use Prim.Native.String.{String}
use stellar_agent_guard_cont.Common.{
  length, ℕ, ◌≡◌, refl, pos, true, false, Option, none, some, List, [], ◌∷◌, All,
}
use stellar_agent_guard_cont.Types.Error.{Error, reason}
use stellar_agent_guard_cont.AgentTx.Text.{Result, ok, err, ◌>>=◌, codes}
use stellar_agent_guard_cont.AgentTx.Base32.{base32_decode}
use stellar_agent_guard_cont.AgentTx.Strkey.{
  validate_key, decode_strkey, first_outside, crc16_xmodem,
}
use stellar_agent_guard_cont.AgentTx.Network.{Network, resolve_endpoint}
use stellar_agent_guard_cont.AgentTx.Json.{
  Json, null, text, array, object, item, none_left, field, no_fields,
}
use stellar_agent_guard_cont.AgentTx.Call.{Call}
use stellar_agent_guard_cont.AgentTx.Outcome.{transaction_success}
use stellar_agent_guard_cont.AgentTx.Report.{
  DiagnosticEvent, complete, allowed_report, first_reason, sim_reason, simulation_report,
  simulation_error_message,
}
use stellar_agent_guard_cont.AgentTx.Report.Reasons.{sim_reason-reason}
use stellar_agent_guard_cont.AgentTx.Envelope.{Crypto, TransactionData}
use stellar_agent_guard_cont.AgentTx.Run.{Libraries, outcome, poll, Rpc, Args, run}
use stellar_agent_guard_cont.AgentTx.Run.Preflight.{ends, preflight, EndsWell, preflight-EndsWell}
use stellar_agent_guard_cont.AgentTx.Registry.{no_guards, resolve_guard}
use stellar_agent_guard_cont.AgentTx.Flags.{
  valid_flags_for_subcommand, flag_in, check_flag, switch, set_value, collect,
}
use stellar_agent_guard_cont.AgentTx.Request.{
  Request, RequestError, World, checked_key, validate_address, finish, parse_request,
}
use stellar_agent_guard_cont.AgentTx.Main.{main, dispatch, sent_of}
use stellar_agent_guard_cont.AgentTx.Main.Submits.{IsFromArguments, main-IsFromArguments}

abbrev zero_contract : String
zero_contract = "CAAAAAAAAAAAAAAAAAAAAAAAAAAAAAAAAAAAAAAAAAAAAAAAAAAABSC4"

abbrev zero_account : String
zero_account = "GAAAAAAAAAAAAAAAAAAAAAAAAAAAAAAAAAAAAAAAAAAAAAAAAAAAAWHF"

abbrev zero_secret : String
zero_secret = "SAAAAAAAAAAAAAAAAAAAAAAAAAAAAAAAAAAAAAAAAAAAAAAAAAAABSU2"

-- An error with one event, which decodes to a rejection of a paused policy.
abbrev rejection : DiagnosticEvent
rejection = record {
  contract_id = some 4;
  topics =
      some (codes "event_auth_checked")
      ∷ some (codes "blocked")
      ∷ some (codes (reason Error.paused))
      ∷ [];
}

abbrev decode_rejection : List ℕ → Option DiagnosticEvent
decode_rejection encoded = some rejection

abbrev one_event : Json
one_event = text (codes "AAAA")

abbrev rejected_error : Json
rejected_error =
    object (
      field "data" (object (field "events" (array (item one_event none_left)) no_fields)) no_fields)

sim_reason-reason_example : sim_reason decode_rejection rejected_error ≡ codes (reason Error.paused)
unfolding first_reason
sim_reason-reason_example =
    sim_reason-reason decode_rejection rejected_error one_event [] [] (codes "AAAA") rejection
      Error.paused refl refl refl refl refl

abbrev null_error : Json
null_error = object (field "error" null no_fields)

abbrev small_crypto : Crypto
small_crypto = record {
  SigningKey = List ℕ;
  from_seed = λ seed. seed;
  verifying_key = λ key. key;
  sign = λ key digest. digest;
  sha256 = λ bytes. bytes;
  preimage_xdr = λ p. p.network_id;
  tx_xdr = λ tx. tx.source_account;
}

abbrev small_data : TransactionData
small_data = record {
  footprint = record { reads = []; writes = [] };
  instructions = 1000;
  disk_read_bytes = 10;
  write_bytes = 10;
  resource_fee = pos 400;
}

abbrev small_libraries : Libraries
small_libraries = record {
  crypto = small_crypto;
  decode = decode_rejection;
  shown = λ _. [];
  parse_data = λ _. some small_data;
  advice_text = λ _. [];
}

-- A network that admits and includes everything.
abbrev kind_rpc : Rpc
kind_rpc = record {
  account_seq = λ _. ok (pos 5);
  latest_ledger = ok 100;
  simulate = λ _. ok (
      object (
        field "transactionData" (text []) (field "minResourceFee" (text (codes "500")) no_fields)));
  inclusion_fee = ok (some 100);
  send = λ _. ok (object (field "hash" (text (codes "ab")) no_fields));
  registered_agent_pubkey = λ _. ok (codes "key");
  get_tx = λ _ _. ok (object (field "status" (text (codes "SUCCESS")) no_fields));
}

abbrev small_args : Args
small_args = record {
  rpc = kind_rpc;
  passphrase = codes "Test SDF Network ; September 2015";
  guard = 4;
  secret = some (codes zero_secret);
  expect_blocked = false;
  network = none;
  inclusion_fee_override = none;
}

success_test :
    (run small_libraries (Call.transfer 7 3 (pos 40)) small_args 9).ended
    ≡ outcome (transaction_success (codes "ab") (codes "SUCCESS"))
unfolding run decode_strkey first_outside crc16_xmodem base32_decode simulation_error_message poll
success_test = refl

-- An admitted simulation ends a preflight with 0, also where a block was expected.
expecting_test :
    preflight small_libraries
      (Call.transfer 7 3 (pos 40))
      (record small_args { expect_blocked = true })
      9
    ≡ ends (complete none allowed_report (some 100)) 0
unfolding preflight decode_strkey first_outside crc16_xmodem base32_decode simulation_error_message
    simulation_report
expecting_test = refl

preflight-EndsWell_example :
    EndsWell small_libraries small_args true
      (preflight small_libraries (Call.transfer 7 3 (pos 40)) small_args 9)
preflight-EndsWell_example =
    preflight-EndsWell small_libraries (Call.transfer 7 3 (pos 40)) small_args 9

abbrev small_world : World
small_world = record {
  registry = no_guards;
  agent_secret = none;
  read_secret = λ _. none;
  parse_address = λ _. some 4;
}

abbrev transfer_line : List String
transfer_line =
    "--guard" ∷ zero_contract ∷ "--token" ∷ zero_contract ∷ "--to" ∷ zero_account ∷ "--amount"
    ∷ "40" ∷ "--secret" ∷ zero_secret ∷ "--json" ∷ []

abbrev accepted_or : Result RequestError Request → Request → Request
accepted_or (ok r) other = r
accepted_or (err e) other = other

abbrev expected : Request
expected = record {
  guard = 4;
  token = some 4;
  from = none;
  to = some 4;
  amount = some (pos 40);
  secret = some zero_secret;
  endpoint = record {
    network = some Network.testnet;
    url = "https://soroban-testnet.stellar.org";
    phrase = "Test SDF Network ; September 2015";
    phrase_source = "default testnet preset";
  };
  rpc_timeout = 30;
  expect_blocked = false;
  json = true;
  inclusion_fee_override = none;
}

main_transfer_test :
    length (
      sent_of
        (main small_world small_libraries (λ url timeout. kind_rpc) 9 ("transfer" ∷ transfer_line)))
    ≡ 1
unfolding main dispatch parse_request collect check_flag valid_flags_for_subcommand flag_in
    set_value switch finish resolve_endpoint resolve_guard validate_address checked_key validate_key
    decode_strkey first_outside crc16_xmodem base32_decode ◌>>=◌ run simulation_error_message poll
main_transfer_test = refl

main-IsFromArguments_example :
    All
      (IsFromArguments small_world small_libraries
        (λ url timeout. kind_rpc)
        9
        ("transfer" ∷ transfer_line))
      (sent_of
        (main small_world small_libraries (λ url timeout. kind_rpc) 9 ("transfer" ∷ transfer_line)))
main-IsFromArguments_example =
    main-IsFromArguments small_world small_libraries (λ url timeout. kind_rpc) 9
      ("transfer" ∷ transfer_line)
