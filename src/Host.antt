-- ===== src/Host.antt =====
-- What the contract takes from the Soroban host and SDK, which are not part of the repository: values
-- and their conversions, signatures, hashes, and the authorization contexts that the host hands over.
use stellar_agent_guard_cont.Common.{ℕ, ℤ, Bool, true, Option, some, List, ◌≡◌, in_i128}
use stellar_agent_guard_cont.Types.Policy.{Address, Symbol, PolicyConfig}

pub record Host : Type 1 where
  -- `Val`, with `into_val` and `try_from_val` of addresses and of `i128`
  pub Val : Type 0
  pub address_val : Address → Val
  pub i128_val : ℤ → Val
  pub address_of : Val → Option Address
  pub i128_of : Val → Option ℤ
  -- A value converts back to what it was made from, and an `i128` is in range.
  pub address_of-address_val : (a : Address) → address_of (address_val a) ≡ some a
  pub i128_of-i128_val : (z : ℤ) → in_i128 z ≡ true → i128_of (i128_val z) ≡ some z
  pub i128_of_range : (v : Val) (z : ℤ) → i128_of v ≡ some z → in_i128 z ≡ true
  -- `env.crypto()`: a key, a message and a signature, as numbers; a digest, as bytes
  pub ed25519_verify : ℕ → ℕ → ℕ → Bool
  pub sha256 : List ℕ → List ℕ
  pub key_bytes : ℕ → List ℕ
  -- `PolicyConfig::to_xdr`
  pub policy_xdr : PolicyConfig → List ℕ

-- `soroban_sdk::auth::Context`; the payload of a contract creation is never read.
pub data Context (Val : Type 0) : Type 0 where
  contract : Address → Symbol → List Val → Context Val
  create_contract_host_fn : Context Val
  create_contract_with_ctor_host_fn : Context Val
