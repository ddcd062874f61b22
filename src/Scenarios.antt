-- ===== src/Scenarios.antt =====
-- A small host, a policy and a storage on which the scenarios of the children run.
mod Windows
mod Decisions
mod Calls
mod Keys
mod Tool
mod Runs
mod Wire
mod Status
use stellar_agent_guard_cont.Common.{
  ℕ, ◌+◌, ℤ, pos, ◌≡◌, refl, in_i128, Bool, true, false, Option, none, some, List, [], ◌∷◌, ◌==◌,
  arith, Bool-cases, inl, inr, if◌then◌else◌,
}
use stellar_agent_guard_cont.Types.Policy.{Address, Symbol, PolicyConfig}
use stellar_agent_guard_cont.Types.Ledger.{SpendEntry}
use stellar_agent_guard_cont.Host.{Host, Context}
use stellar_agent_guard_cont.Engine.Decide.{AccountState}
use stellar_agent_guard_cont.Contract.Storage.{Storage, Env}
use stellar_agent_guard_cont.Window.Single.{SingleLedger}

pub data Value : Type 0 where
  of_address : Address → Value
  of_number : ℤ → Value

abbrev pub value_address : Value → Option Address
value_address (of_address a) = some a
value_address (of_number z) = none

abbrev pub value_number : Value → Option ℤ
value_number (of_address a) = none
value_number (of_number z) = if in_i128 z then some z else none

pub number_back : (z : ℤ) → in_i128 z ≡ true → value_number (of_number z) ≡ some z
number_back z h = rw h refl

pub number_range : (v : Value) (z : ℤ) → value_number v ≡ some z → in_i128 z ≡ true
number_range (of_address a) z h = absurd (ground arith)
number_range (of_number y) z h = ground arith

abbrev pub small_host : Host
small_host = record {
  Val = Value;
  address_val = of_address;
  i128_val = of_number;
  address_of = value_address;
  i128_of = value_number;
  address_of-address_val = λ a. refl;
  i128_of-i128_val = number_back;
  i128_of_range = number_range;
  ed25519_verify = λ key message signature. signature == key + message;
  sha256 = λ bytes. bytes;
  key_bytes = λ key. key ∷ [];
  policy_xdr = λ cfg. cfg.window_secs ∷ [];
}

-- Transfers of asset 7 to address 3: at most 60 each, at most 100 in 50 seconds. One call in 50 seconds
-- of the contract 9.
abbrev pub small_policy : PolicyConfig
small_policy = record {
  per_tx_cap = pos 60;
  window_secs = 50;
  window_cap = pos 100;
  assets = 7 ∷ [];
  protocols = record { contract = 9; fns = none; paused = false } ∷ [];
  recipients = 3 ∷ [];
  recipient_window_caps = [];
  blocked_recipients = [];
  asset_caps = [];
  allow_any_recipient = false;
  active_from = 0;
  active_until = 0;
  paused = false;
  dms_grace_secs = 1000;
  protocol_calls_per_window = 1;
}

-- Address 1 consents.
abbrev pub env_at : ℕ → Env
env_at now = record { now = now; self_addr = 4; authorizes = λ a. a == 1 }

abbrev pub small_storage : Storage
small_storage = record {
  initialized = some true;
  admin = some 1;
  pending_admin = none;
  agent_pubkey = some 5;
  policy = some small_policy;
  window = none;
  last_heartbeat = some 10;
  admin_frozen = some false;
  auto_frozen_at = none;
  policy_revision = some 1;
  events = [];
}

abbrev pub awake : AccountState
awake = record { admin_frozen = false; last_heartbeat = 10 }

-- A transfer of `amount` to address 3, and a call of the contract 9.
abbrev pub pay : ℤ → Context Value
pay amount = Context.contract 7 "transfer" (of_address 4 ∷ of_address 3 ∷ of_number amount ∷ [])

abbrev pub ping : Context Value
ping = Context.contract 9 "ping" []

-- A window of two spends.
abbrev pub two_spends : SingleLedger
two_spends = record {
  total = pos 50;
  entries = record { ts = 10; amount = pos 20 } ∷ record { ts = 30; amount = pos 30 } ∷ [];
}
