-- ===== src/AgentTx/Request.antt =====
-- `parse_request` of tools/agent-tx/src/main.rs: the flags become inputs that are checked before anything
-- reaches the network.
pub mod Inputs
use Prim.Native.String.{String}
use stellar_agent_guard_cont.Common.{
  ℕ, ℤ, Bool, true, false, not, ◌&&◌, ◌||◌, Option, none, some, List, is_some, if◌then◌else◌,
}
use stellar_agent_guard_cont.Types.Policy.{Address, sym_eq}
use stellar_agent_guard_cont.AgentTx.Text.{Result, ok, err, ◌>>=◌, codes}
use stellar_agent_guard_cont.AgentTx.Strkey.{
  Checked, accepted, refused, StrkeyError, KeyKind, contract_id, recipient_id, secret_seed,
  validate_key,
}
use stellar_agent_guard_cont.AgentTx.Network.{Network, Endpoint, EndpointError, resolve_endpoint}
use stellar_agent_guard_cont.AgentTx.Registry.{Registry, RegistryError, resolve_guard}
use stellar_agent_guard_cont.AgentTx.Flags.{Collected, FlagError, nothing_collected, collect}

pub record Request : Type 0 where
  pub guard : Address
  pub token : Option Address
  pub from : Option Address
  pub to : Option Address
  pub amount : Option ℤ
  pub secret : Option String
  pub endpoint : Endpoint
  pub rpc_timeout : ℕ
  pub expect_blocked : Bool
  pub json : Bool
  pub inclusion_fee_override : Option ℕ

-- `parsed_token`, `parsed_from`, `parsed_to` and the amount
pub record SpendInputs : Type 0 where
  pub token : Option Address
  pub from : Option Address
  pub to : Option Address
  pub amount : Option ℤ

pub data RequestError : Type 0 where
  bad_flag : FlagError → RequestError
  bad_endpoint : EndpointError → RequestError
  no_guard : RegistryError → RequestError
  -- the flag and what is wrong with its value
  bad_key : String → StrkeyError → RequestError
  internal_error : String → RequestError
  unreadable_secret : RequestError
  missing_secret missing_from missing_to missing_amount from_without_transfer_from : RequestError
  missing_token : String → RequestError

-- The environment of the tool: the registry, `AGENT_SECRET`, the files with their trailing blanks cut
-- off, and the library's parser of addresses.
pub record World : Type 0 where
  pub registry : Registry
  pub agent_secret : Option String
  pub read_secret : String → Option String
  pub parse_address : String → Option Address

abbrev pub map_error : {E F A : Type 0} → (E → F) → Result E A → Result F A
map_error f (ok a) = ok a
map_error f (err e) = err (f e)

-- A key that was checked, as `Ok` of its text.
unfoldable pub checked_key : String → KeyKind → String → Result RequestError String
checked_key name kind value = elim (validate_key kind (codes value)) [
  | accepted key ↦ ok value
  | refused e ↦ err (bad_key name e)
]

abbrev submits : String → Bool
submits cmd = sym_eq cmd "transfer" || (sym_eq cmd "transfer-from" || sym_eq cmd "heartbeat")

abbrev pub needs_secret : String → Bool
needs_secret = submits

-- `spend_flags`
abbrev pub is_spend : String → Bool
is_spend cmd =
    sym_eq cmd "preflight"
    || (sym_eq cmd "transfer" || (sym_eq cmd "transfer-from" || sym_eq cmd "check"))

abbrev or_name : String → String → String
or_name field name = if sym_eq field "" then name else field

module _ (w : World) where
  abbrev parsed : String → String → Result RequestError Address
  parsed name value = elim (w.parse_address value) [
    | none ↦ err (internal_error name)
    | some a ↦ ok a
  ]

  unfoldable pub validate_address : String → KeyKind → String → Result RequestError Address
  unfolding checked_key
  validate_address name kind value = checked_key name kind value >>= parsed name

  -- The secret of a file wins over one of the command line, and that over the environment.
  abbrev pub secret_of : Collected → Result RequestError (Option String)
  secret_of st = elim st.secret_path [
    | some path ↦ elim (w.read_secret path) [ none ↦ err unreadable_secret | some s ↦ ok (some s) ]
    | none ↦ ok (elim st.secret_arg [ some s ↦ some s | none ↦ w.agent_secret ])
  ]

  abbrev pub secret_name : Collected → String
  secret_name st = elim st.secret_path [
    | some path ↦ or_name st.secret_field "--agent-secret-file"
    | none ↦ or_name st.secret_field "--agent-secret (or AGENT_SECRET)"
  ]

  abbrev pub checked_secret :
      String → Collected → Option String → Result RequestError (Option String)
  checked_secret cmd st (some s) = checked_key (secret_name st) secret_seed s >>= λ s. ok (some s)
  checked_secret cmd st none = if needs_secret cmd then err missing_secret else ok none

  abbrev pub required :
      Option String → RequestError → String → KeyKind → Result RequestError (Option Address)
  required none e name kind = err e
  required (some raw) e name kind = validate_address name kind raw >>= λ a. ok (some a)

  abbrev pub parsed_from : String → Option String → Result RequestError (Option Address)
  parsed_from cmd raw =
      if sym_eq cmd "transfer-from"
      then required raw missing_from "--from" recipient_id
      else if is_some raw
      then err from_without_transfer_from
      else ok none

  abbrev pub amount_given : Option ℤ → Result RequestError (Option ℤ)
  amount_given none = err missing_amount
  amount_given (some z) = ok (some z)

  -- The token, the owner, the recipient and the amount of a spend.
  abbrev pub spend_inputs : String → Collected → Result RequestError SpendInputs
  spend_inputs cmd st =
      let default_field = (if sym_eq cmd "transfer" then "--token" else "--asset") in
      let token_field = or_name st.token_field default_field in
      required st.token_arg (missing_token token_field) token_field contract_id >>= λ token.
      parsed_from cmd st.from_arg >>= λ from.
      required st.to_arg missing_to "--to" recipient_id >>= λ to.
      amount_given st.amount_arg >>= λ amount.
      ok (record { token = token; from = from; to = to; amount = amount })

  abbrev pub spend_or_none : String → Collected → Result RequestError SpendInputs
  spend_or_none cmd st =
      if is_spend cmd
      then spend_inputs cmd st
      else ok (record { token = none; from = none; to = none; amount = st.amount_arg })

  -- The checks after the loop.
  unfoldable pub finish : String → Collected → Result RequestError Request
  finish cmd st =
      map_error bad_endpoint (resolve_endpoint st.network_arg st.rpc_url_arg st.passphrase_arg)
      >>= λ endpoint. map_error no_guard (resolve_guard w.registry st.guard_arg) >>= λ raw.
          validate_address "--guard" contract_id raw >>= λ guard. secret_of st >>= λ given.
          checked_secret cmd st given >>= λ secret. spend_or_none cmd st >>= λ spend. ok (record {
            guard = guard;
            token = spend.token;
            from = spend.from;
            to = spend.to;
            amount = spend.amount;
            secret = secret;
            endpoint = endpoint;
            rpc_timeout = st.timeout_arg;
            expect_blocked = st.block_expected;
            json = st.json_asked;
            inclusion_fee_override = st.fee_override;
          })

  unfoldable pub parse_request : String → List String → Result RequestError Request
  parse_request cmd argv = map_error bad_flag (collect cmd nothing_collected argv) >>= finish cmd
