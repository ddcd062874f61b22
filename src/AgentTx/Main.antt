-- ===== src/AgentTx/Main.antt =====
-- `main` of tools/agent-tx/src/main.rs: which command an argument vector names, and what it is given.
pub mod Submits
use Prim.Native.String.{String}
use stellar_agent_guard_cont.Common.{
  ℕ, ℤ, Bool, ◌||◌, not, Option, none, some, List, [], ◌∷◌, any, if◌then◌else◌,
}
use stellar_agent_guard_cont.Types.Policy.{Address, sym_eq}
use stellar_agent_guard_cont.AgentTx.Text.{Result, ok, err, codes}
use stellar_agent_guard_cont.AgentTx.Call.{Call}
use stellar_agent_guard_cont.AgentTx.Envelope.{Envelope}
use stellar_agent_guard_cont.AgentTx.Run.{Rpc, Args, Libraries, Ran, run}
use stellar_agent_guard_cont.AgentTx.Run.Preflight.{Preflighted, preflight}
use stellar_agent_guard_cont.AgentTx.Request.{World, Request, RequestError, parse_request}

-- What `exit_with` is given.
pub data MainError : Type 0 where
  unknown_subcommand missing_argument : String → MainError
  bad_request : RequestError → MainError

-- What the tool does: it prints a help text, ends with code 1, hands over to a command that only reads, or
-- has run one that simulates or submits.
pub data Finished : Type 0 where
  helped no_command : Finished
  refused : MainError → Finished
  edits_registry : List String → Finished
  reads_status reads_policy : Request → Finished
  checks : Request → Address → Address → ℤ → Finished
  preflighted : Preflighted → Finished
  ran : Ran → Finished

abbrev pub is_help : String → Bool
is_help arg = sym_eq arg "--help" || (sym_eq arg "-h" || sym_eq arg "help")

abbrev pub subcommands : List String
subcommands =
    "preflight" ∷ "transfer" ∷ "transfer-from" ∷ "heartbeat" ∷ "status" ∷ "policy" ∷ "check" ∷ []

abbrev pub is_subcommand : String → Bool
is_subcommand cmd = any (sym_eq cmd) subcommands

abbrev of_codes : Option String → Option (List ℕ)
of_codes none = none
of_codes (some s) = some (codes s)

-- `Request::args`; `rpc_of` is `Rpc::new`, of the URL and the timeout.
abbrev pub args_of : (String → ℕ → Rpc) → Request → Args
args_of rpc_of r = record {
  rpc = rpc_of r.endpoint.url r.rpc_timeout;
  passphrase = codes r.endpoint.phrase;
  guard = r.guard;
  secret = of_codes r.secret;
  expect_blocked = r.expect_blocked;
  network = r.endpoint.network;
  inclusion_fee_override = r.inclusion_fee_override;
}

module _ (w : World) (t : Libraries) (rpc_of : String → ℕ → Rpc) (entropy : ℕ) where
  abbrev pub submitting : Request → Call → Finished
  submitting r call = ran (run t call (args_of rpc_of r) entropy)

  abbrev pub check_with : Request → Option Address → Option Address → Option ℤ → Finished
  check_with r (some asset) (some to) (some amount) = checks r asset to amount
  check_with r _ _ _ = refused (missing_argument "check")

  abbrev pub preflight_with : Request → Option Address → Option Address → Option ℤ → Finished
  preflight_with r (some token) (some to) (some amount) =
      preflighted (preflight t (Call.transfer token to amount) (args_of rpc_of r) entropy)
  preflight_with r _ _ _ = refused (missing_argument "preflight")

  abbrev pub transfer_with : Request → Option Address → Option Address → Option ℤ → Finished
  transfer_with r (some token) (some to) (some amount) =
      submitting r (Call.transfer token to amount)
  transfer_with r _ _ _ = refused (missing_argument "transfer")

  abbrev pub transfer_from_with :
      Request → Option Address → Option Address → Option Address → Option ℤ → Finished
  transfer_from_with r (some token) (some from) (some to) (some amount) =
      submitting r (Call.transfer_from token from to amount)
  transfer_from_with r _ _ _ _ = refused (missing_argument "transfer-from")

  -- The last `match` on the subcommand.
  unfoldable pub dispatch : String → Request → Finished
  dispatch cmd r =
      if sym_eq cmd "status"
      then reads_status r
      else if sym_eq cmd "policy"
      then reads_policy r
      else if sym_eq cmd "check"
      then check_with r r.token r.to r.amount
      else if sym_eq cmd "preflight"
      then preflight_with r r.token r.to r.amount
      else if sym_eq cmd "transfer"
      then transfer_with r r.token r.to r.amount
      else if sym_eq cmd "transfer-from"
      then transfer_from_with r r.token r.from r.to r.amount
      else if sym_eq cmd "heartbeat"
      then submitting r Call.heartbeat
      else refused (unknown_subcommand cmd)

  abbrev pub requested : String → Result RequestError Request → Finished
  requested cmd (err e) = refused (bad_request e)
  requested cmd (ok r) = dispatch cmd r

  -- `main`, on the arguments behind the program's name.
  unfoldable pub main : List String → Finished
  unfolding dispatch
  main [] = no_command
  main (cmd ∷ rest) =
      if is_help cmd
      then helped
      else if any is_help rest
      then helped
      else if sym_eq cmd "guards"
      then edits_registry rest
      else if not (is_subcommand cmd)
      then refused (unknown_subcommand cmd)
      else requested cmd (parse_request w cmd rest)

-- What the tool has submitted.
abbrev pub sent_of : Finished → List Envelope
sent_of (ran r) = r.sent
sent_of _ = []
