-- ===== src/AgentTx/Network.antt =====
-- The network presets of tools/agent-tx/src/network.rs, and the endpoint that the flags select.
pub mod Select
use Prim.Native.String.{String}
use stellar_agent_guard_cont.Common.{
  ℕ, Bool, true, false, ◌||◌, Option, none, some, List, ◌==◌, if◌then◌else◌, get_or_else,
}
use stellar_agent_guard_cont.AgentTx.Text.{
  Result, ok, err, codes, text_eq, to_ascii_lowercase, after_first, until, trim_start_matches,
}

pub data Network : Type 0 where
  testnet futurenet mainnet : Network

abbrev pub default_network : Network
default_network = testnet

abbrev pub name : Network → String
name testnet = "testnet"
name futurenet = "futurenet"
name mainnet = "mainnet"

-- `Network::parse`; `none` stands for the message.
unfoldable pub parse : String → Option Network
parse value =
    let lower = to_ascii_lowercase (codes value) in
    if text_eq lower (codes "testnet")
    then some testnet
    else if text_eq lower (codes "futurenet")
    then some futurenet
    else if text_eq lower (codes "mainnet")
    then some mainnet
    else none

abbrev pub rpc_url : Network → String
rpc_url testnet = "https://soroban-testnet.stellar.org"
rpc_url futurenet = "https://rpc-futurenet.stellar.org"
rpc_url mainnet = "https://soroban.stellar.org"

abbrev pub passphrase : Network → String
passphrase testnet = "Test SDF Network ; September 2015"
passphrase futurenet = "Test SDF Future Network ; October 2022"
passphrase mainnet = "Public Global Stellar Network ; September 2015"

abbrev ends_host : ℕ → Bool
ends_host c = c == b'/' || (c == b'?' || c == b'#')

-- The host of a URL, in lower case.
abbrev pub host : String → List ℕ
host url =
    let rest = get_or_else (after_first (codes "://") (codes url)) (codes url) in
    to_ascii_lowercase (until ends_host rest)

abbrev pub preset_host : Network → List ℕ
preset_host n = trim_start_matches (codes "https://") (codes (rpc_url n))

unfoldable pub from_rpc_url : String → Option Network
from_rpc_url url =
    if text_eq (host url) (preset_host testnet)
    then some testnet
    else if text_eq (host url) (preset_host futurenet)
    then some futurenet
    else if text_eq (host url) (preset_host mainnet)
    then some mainnet
    else none

-- `notice`
abbrev pub has_notice : Network → Bool
has_notice mainnet = true
has_notice _ = false

pub record Endpoint : Type 0 where
  pub network : Option Network
  pub url : String
  pub phrase : String
  pub phrase_source : String

pub data EndpointError : Type 0 where
  invalid_network : String → EndpointError
  conflicting_selection : Network → String → EndpointError
  custom_url_without_passphrase : EndpointError

abbrev source_of : Option String → String → String
source_of (some _) other = "explicit --network-passphrase"
source_of none other = other

abbrev pub preset_endpoint : Network → Option String → String → Endpoint
preset_endpoint preset explicit other = record {
  network = some preset;
  url = rpc_url preset;
  phrase = get_or_else explicit (passphrase preset);
  phrase_source = source_of explicit other;
}

abbrev pub url_endpoint : Option Network → String → Option String → Result EndpointError Endpoint
url_endpoint none url none = err custom_url_without_passphrase
url_endpoint preset url explicit =
    let fallback = get_or_else preset default_network in
    ok (record {
      network = preset;
      url = url;
      phrase = get_or_else explicit (passphrase fallback);
      phrase_source = source_of explicit "recognized --rpc-url preset";
    })

abbrev pub beside_url : Option Network → String → String → Result EndpointError Endpoint
beside_url none named url = err (invalid_network named)
beside_url (some preset) named url = err (conflicting_selection preset url)

abbrev pub named_endpoint : Option Network → String → Option String → Result EndpointError Endpoint
named_endpoint none named explicit = err (invalid_network named)
named_endpoint (some preset) named explicit =
    ok (preset_endpoint preset explicit "--network preset")

unfoldable pub resolve_endpoint :
    Option String → Option String → Option String → Result EndpointError Endpoint
resolve_endpoint (some named) (some url) explicit = beside_url (parse named) named url
resolve_endpoint (some named) none explicit = named_endpoint (parse named) named explicit
resolve_endpoint none (some url) explicit = url_endpoint (from_rpc_url url) url explicit
resolve_endpoint none none explicit =
    ok (preset_endpoint default_network explicit "default testnet preset")
