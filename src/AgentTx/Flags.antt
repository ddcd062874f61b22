-- ===== src/AgentTx/Flags.antt =====
-- The flags of tools/agent-tx/src/main.rs: which a subcommand takes, and what each of them sets.
pub mod Collect
use Prim.Native.String.{String}
use Prim.Native.Nat.{◌^◌}
use stellar_agent_guard_cont.Common.{
  ℕ, ◌-◌, ◌+◌, ℤ, pos, negsuc, Bool, true, false, not, ◌&&◌, ◌||◌, Option, none, some, List, [],
  ◌∷◌, any, leb, ltb, ◌==◌, i128_max, u32_max, u64_max, if◌then◌else◌,
}
use stellar_agent_guard_cont.Types.Policy.{sym_eq}
use stellar_agent_guard_cont.AgentTx.Text.{Result, ok, err, ◌>>=◌, codes}
use stellar_agent_guard_cont.AgentTx.Json.{digits, parse_unsigned}

abbrev pub default_rpc_timeout : ℕ
default_rpc_timeout = 30

-- The flags that set something, by what they set.
pub data Flag : Type 0 where
  help guard token from to amount inclusion_fee secret secret_file : Flag
  network rpc_url passphrase rpc_timeout expect_blocked json unknown_flag : Flag

abbrev pub has_text : List String → String → Bool
has_text xs s = any (λ (x : String). sym_eq x s) xs

-- The order of the flags only words the messages.
unfoldable pub valid_flags_for_subcommand : String → List String
valid_flags_for_subcommand cmd =
    if sym_eq cmd "preflight"
    then "--guard" ∷ "--asset" ∷ "--token" ∷ "--to" ∷ "--amount" ∷ "--secret" ∷ "--agent-secret"
      ∷ "--agent-secret-file" ∷ "--network" ∷ "--rpc-url" ∷ "--rpc-timeout" ∷ "--network-passphrase"
      ∷ "--inclusion-fee" ∷ "--expect-blocked" ∷ "--json" ∷ "-h" ∷ "--help" ∷ []
    else if sym_eq cmd "transfer"
    then "--guard" ∷ "--token" ∷ "--asset" ∷ "--to" ∷ "--amount" ∷ "--agent-secret"
      ∷ "--agent-secret-file" ∷ "--secret" ∷ "--network" ∷ "--rpc-url" ∷ "--rpc-timeout"
      ∷ "--network-passphrase" ∷ "--inclusion-fee" ∷ "--expect-blocked" ∷ "--json" ∷ "-h" ∷ "--help"
      ∷ []
    else if sym_eq cmd "transfer-from"
    then "--guard" ∷ "--token" ∷ "--asset" ∷ "--from" ∷ "--to" ∷ "--amount" ∷ "--agent-secret"
      ∷ "--agent-secret-file" ∷ "--secret" ∷ "--network" ∷ "--rpc-url" ∷ "--rpc-timeout"
      ∷ "--network-passphrase" ∷ "--inclusion-fee" ∷ "--expect-blocked" ∷ "--json" ∷ "-h" ∷ "--help"
      ∷ []
    else if sym_eq cmd "heartbeat"
    then "--guard" ∷ "--agent-secret" ∷ "--agent-secret-file" ∷ "--secret" ∷ "--network"
      ∷ "--rpc-url" ∷ "--rpc-timeout" ∷ "--network-passphrase" ∷ "--inclusion-fee" ∷ "--json" ∷ "-h"
      ∷ "--help" ∷ []
    else if sym_eq cmd "status" || sym_eq cmd "policy"
    then "--guard" ∷ "--network" ∷ "--rpc-url" ∷ "--rpc-timeout" ∷ "--network-passphrase" ∷ "--json"
      ∷ "-h" ∷ "--help" ∷ []
    else if sym_eq cmd "check"
    then "--guard" ∷ "--asset" ∷ "--token" ∷ "--to" ∷ "--amount" ∷ "--network" ∷ "--rpc-url"
      ∷ "--rpc-timeout" ∷ "--network-passphrase" ∷ "--json" ∷ "-h" ∷ "--help" ∷ []
    else []

abbrev pub transfer_only_flags : List String
transfer_only_flags =
    "--token" ∷ "--asset" ∷ "--to" ∷ "--from" ∷ "--amount" ∷ "--expect-blocked" ∷ []

-- The names of the flags, in the order of the `match`.
abbrev pub flag_names : List (String × Flag)
flag_names =
    ("-h", help)
    ∷ ("--help", help)
    ∷ ("--guard", guard)
    ∷ ("--token", token)
    ∷ ("--asset", token)
    ∷ ("--from", from)
    ∷ ("--to", to)
    ∷ ("--amount", amount)
    ∷ ("--inclusion-fee", inclusion_fee)
    ∷ ("--agent-secret", secret)
    ∷ ("--secret", secret)
    ∷ ("--agent-secret-file", secret_file)
    ∷ ("--network", network)
    ∷ ("--rpc-url", rpc_url)
    ∷ ("--network-passphrase", passphrase)
    ∷ ("--rpc-timeout", rpc_timeout)
    ∷ ("--expect-blocked", expect_blocked)
    ∷ ("--json", json)
    ∷ []

unfoldable pub flag_in : List (String × Flag) → String → Flag
flag_in [] f = unknown_flag
flag_in ((name, flag) ∷ names) f = if sym_eq f name then flag else flag_in names f

abbrev pub flag_of : String → Flag
flag_of f = flag_in flag_names f

pub data FlagError : Type 0 where
  transfer_only from_needs_transfer_from unknown missing_value : String → FlagError
  help_requested : FlagError
  invalid_amount invalid_inclusion_fee invalid_timeout : String → FlagError

-- The variables of `parse_request` that the loop sets.
pub record Collected : Type 0 where
  pub guard_arg : Option String
  pub token_arg : Option String
  pub token_field : String
  pub from_arg : Option String
  pub to_arg : Option String
  pub amount_arg : Option ℤ
  pub secret_arg : Option String
  pub secret_field : String
  pub secret_path : Option String
  pub network_arg : Option String
  pub rpc_url_arg : Option String
  pub passphrase_arg : Option String
  pub timeout_arg : ℕ
  pub block_expected : Bool
  pub json_asked : Bool
  pub fee_override : Option ℕ

abbrev pub nothing_collected : Collected
nothing_collected = record {
  guard_arg = none;
  token_arg = none;
  token_field = "";
  from_arg = none;
  to_arg = none;
  amount_arg = none;
  secret_arg = none;
  secret_field = "";
  secret_path = none;
  network_arg = none;
  rpc_url_arg = none;
  passphrase_arg = none;
  timeout_arg = default_rpc_timeout;
  block_expected = false;
  json_asked = false;
  fee_override = none;
}

abbrev signed_in_range : Bool → Option ℕ → Option ℤ
signed_in_range minus none = none
signed_in_range false (some n) = if leb n i128_max then some (pos n) else none
signed_in_range true (some n) =
    if n == 0 then some (pos 0) else if leb (n - 1) i128_max then some (negsuc (n - 1)) else none

-- `parse::<i128>`
abbrev pub parse_i128 : List ℕ → Option ℤ
parse_i128 [] = none
parse_i128 (c ∷ cs) =
    if c == b'-'
    then signed_in_range true (digits cs)
    else signed_in_range false (if c == b'+' then digits cs else digits (c ∷ cs))

abbrev pub nonzero : Option ℕ → Option ℕ
nonzero none = none
nonzero (some n) = if ltb 0 n then some n else none

-- Whole seconds, above 0.
unfoldable pub parse_rpc_timeout : String → Option ℕ
parse_rpc_timeout raw = nonzero (parse_unsigned (u64_max + 1) (codes raw))

abbrev with_amount : Option ℤ → String → Collected → Result FlagError Collected
with_amount none raw st = err (invalid_amount raw)
with_amount (some z) raw st = ok (record st { amount_arg = some z })

abbrev with_fee : Option ℕ → String → Collected → Result FlagError Collected
with_fee none raw st = err (invalid_inclusion_fee raw)
with_fee (some fee) raw st = ok (record st { fee_override = some fee })

abbrev pub with_timeout : Option ℕ → String → Collected → Result FlagError Collected
with_timeout none raw st = err (invalid_timeout raw)
with_timeout (some secs) raw st = ok (record st { timeout_arg = secs })

abbrev pub takes_value : Flag → Bool
takes_value help = false
takes_value expect_blocked = false
takes_value json = false
takes_value unknown_flag = false
takes_value _ = true

-- A flag that stands alone.
unfoldable pub switch : Flag → String → Collected → Result FlagError Collected
switch help f st = err help_requested
switch expect_blocked f st = ok (record st { block_expected = true })
switch json f st = ok (record st { json_asked = true })
switch _ f st = err (unknown f)

-- A flag with its value; a secret `-` is read from the standard input later.
unfoldable pub set_value : Flag → String → String → Collected → Result FlagError Collected
unfolding parse_rpc_timeout
set_value guard f v st = ok (record st { guard_arg = some v })
set_value token f v st = ok (record st { token_arg = some v; token_field = f })
set_value from f v st = ok (record st { from_arg = some v })
set_value to f v st = ok (record st { to_arg = some v })
set_value amount f v st = with_amount (parse_i128 (codes v)) v st
set_value inclusion_fee f v st = with_fee (parse_unsigned (u32_max + 1) (codes v)) v st
set_value secret f v st =
    if sym_eq v "-"
    then ok (record st { secret_field = f; secret_path = some v })
    else ok (record st { secret_field = f; secret_arg = some v })
set_value secret_file f v st = ok (record st { secret_field = f; secret_path = some v })
set_value network f v st = ok (record st { network_arg = some v })
set_value rpc_url f v st = ok (record st { rpc_url_arg = some v })
set_value passphrase f v st = ok (record st { passphrase_arg = some v })
set_value rpc_timeout f v st = with_timeout (parse_rpc_timeout v) v st
set_value _ f v st = err (unknown f)

-- Why a flag is refused.
abbrev pub refusal : String → String → FlagError
refusal cmd f =
    if sym_eq cmd "heartbeat" && has_text transfer_only_flags f
    then transfer_only f
    else if sym_eq cmd "transfer" && sym_eq f "--from"
    then from_needs_transfer_from f
    else unknown f

-- The checks at the head of the loop.
unfoldable pub check_flag : String → String → Result FlagError Flag
check_flag cmd f =
    if has_text (valid_flags_for_subcommand cmd) f then ok (flag_of f) else err (refusal cmd f)

-- The loop of `parse_request`.
unfoldable pub collect : String → Collected → List String → Result FlagError Collected
collect cmd st [] = ok st
collect cmd st (f ∷ []) = check_flag cmd f >>= λ flag. elim (takes_value flag) [
  | true ↦ err (missing_value f)
  | false ↦ switch flag f st
]
collect cmd st (f ∷ v ∷ rest) = check_flag cmd f >>= λ flag. elim (takes_value flag) [
  | true ↦ set_value flag f v st >>= λ st'. collect cmd st' rest
  | false ↦ switch flag f st >>= λ st'. collect cmd st' (v ∷ rest)
]
