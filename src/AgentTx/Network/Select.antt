-- ===== src/AgentTx/Network/Select.antt =====
-- Which endpoint the flags select: the passphrase never belongs to another preset than the URL, unless
-- it was given.
use Prim.Native.String.{String}
use stellar_agent_guard_cont.Common.{◌≡◌, refl, sym, ap, ◌∙◌, get_or_else, Option, none, some}
use stellar_agent_guard_cont.AgentTx.Text.{Result, ok, err, some_injective}
use stellar_agent_guard_cont.AgentTx.Network.{
  Network, testnet, futurenet, mainnet, Endpoint, EndpointError, invalid_network,
  conflicting_selection, custom_url_without_passphrase, parse, rpc_url, passphrase, from_rpc_url,
  resolve_endpoint, beside_url, named_endpoint, url_endpoint, preset_endpoint,
}

from_rpc_url-rpc_url : (n : Network) → from_rpc_url (rpc_url n) ≡ some n
unfolding from_rpc_url
from_rpc_url-rpc_url testnet = refl
from_rpc_url-rpc_url futurenet = refl
from_rpc_url-rpc_url mainnet = refl

-- What an accepted endpoint has to do with the flags.
pub record IsPaired (named given explicit : Option String) (e : Endpoint) : Type 0 where
  -- the preset is the one that the URL names
  pub preset : e.network ≡ from_rpc_url e.url
  pub named_preset : (n : String) → named ≡ some n → e.network ≡ parse n
  pub given_url : (u : String) → given ≡ some u → e.url ≡ u
  pub default_preset : named ≡ none → given ≡ none → e.network ≡ some testnet
  pub given_phrase : (p : String) → explicit ≡ some p → e.phrase ≡ p
  pub preset_phrase :
      explicit ≡ none → (n : Network) × (e.network ≡ some n) × (e.phrase ≡ passphrase n)

abbrev pub Selects :
    Option String → Option String → Option String → Result EndpointError Endpoint → Type 0
Selects named given explicit (ok e) = IsPaired named given explicit e
Selects named given explicit (err (invalid_network n)) = (named ≡ some n) × (parse n ≡ none)
Selects named given explicit (err (conflicting_selection preset url)) =
    (n : String) × (named ≡ some n) × (parse n ≡ some preset) × (given ≡ some url)
Selects named given explicit (err custom_url_without_passphrase) =
    (named ≡ none)
    × (explicit ≡ none)
    × ((url : String) × (given ≡ some url) × (from_rpc_url url ≡ none))

beside_url-Selects :
    (n u : String) (explicit : Option String) (o : Option Network)
    → parse n ≡ o
    → Selects (some n) (some u) explicit (beside_url o n u)
beside_url-Selects n u explicit none e = (refl, e)
beside_url-Selects n u explicit (some p) e = (n, refl, e, refl)

phrase_given :
    (d : String) (explicit : Option String) (p : String)
    → explicit ≡ some p
    → get_or_else explicit d ≡ p
phrase_given d none p h = cc h
phrase_given d (some q) p h = some_injective q p h

phrase_default :
    (d : String) (explicit : Option String) → explicit ≡ none → get_or_else explicit d ≡ d
phrase_default d none h = refl
phrase_default d (some q) h = cc h

-- Without a URL the endpoint is a preset's.
module _ (named explicit : Option String) (preset : Network) (other : String) where
  preset_endpoint-IsPaired :
      ((n : String) → named ≡ some n → some preset ≡ parse n)
      → (named ≡ none → preset ≡ testnet)
      → IsPaired named none explicit (preset_endpoint preset explicit other)
  preset_endpoint-IsPaired name_of default = record {
    preset = sym (from_rpc_url-rpc_url preset);
    named_preset = name_of;
    given_url = λ u h. cc h;
    default_preset = λ h _. ap some (default h);
    given_phrase = phrase_given (passphrase preset) explicit;
    preset_phrase = λ h. (preset, refl, phrase_default (passphrase preset) explicit h);
  }

named_endpoint-Selects :
    (n : String) (explicit : Option String) (o : Option Network)
    → parse n ≡ o
    → Selects (some n) none explicit (named_endpoint o n explicit)
named_endpoint-Selects n explicit none e = (refl, e)
named_endpoint-Selects n explicit (some p) e =
    preset_endpoint-IsPaired (some n) explicit p "--network preset"
      (λ m h. sym e ∙ ap parse (some_injective n m h)) (λ h. cc h)

url_endpoint-Selects :
    (u : String) (explicit : Option String) (o : Option Network)
    → from_rpc_url u ≡ o
    → Selects none (some u) explicit (url_endpoint o u explicit)
url_endpoint-Selects u none none e = (refl, refl, (u, refl, e))
url_endpoint-Selects u none (some n) e = record {
  preset = sym e;
  named_preset = λ n h. cc h;
  given_url = λ v h. some_injective u v h;
  default_preset = λ _ h. cc h;
  given_phrase = λ p h. cc h;
  preset_phrase = λ h. (n, refl, refl);
}
url_endpoint-Selects u (some q) none e = record {
  preset = sym e;
  named_preset = λ n h. cc h;
  given_url = λ v h. some_injective u v h;
  default_preset = λ _ h. cc h;
  given_phrase = λ p h. some_injective q p h;
  preset_phrase = λ h. cc h;
}
url_endpoint-Selects u (some q) (some n) e = record {
  preset = sym e;
  named_preset = λ n h. cc h;
  given_url = λ v h. some_injective u v h;
  default_preset = λ _ h. cc h;
  given_phrase = λ p h. some_injective q p h;
  preset_phrase = λ h. cc h;
}

-- The flags select an endpoint whose preset is the one its URL names: the named preset, or that of
-- the given URL, or the test network where neither is given. A given URL and a given passphrase are
-- taken as they are; without a passphrase the endpoint has a preset and that preset's passphrase. An
-- error names its cause: an unknown name, a name beside a URL, or neither preset nor passphrase.
pub resolve_endpoint-Selects :
    (named given explicit : Option String)
    → Selects named given explicit (resolve_endpoint named given explicit)
unfolding resolve_endpoint
resolve_endpoint-Selects (some n) (some u) explicit = beside_url-Selects n u explicit (parse n) refl
resolve_endpoint-Selects (some n) none explicit = named_endpoint-Selects n explicit (parse n) refl
resolve_endpoint-Selects none (some u) explicit =
    url_endpoint-Selects u explicit (from_rpc_url u) refl
resolve_endpoint-Selects none none explicit =
    preset_endpoint-IsPaired none explicit testnet "default testnet preset" (λ n h. cc h)
      (λ _. refl)
