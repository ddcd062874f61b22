-- ===== src/AgentTx/Envelope.antt =====
-- The transactions of tools/agent-tx/src/main.rs: the guard's authorization entry, the transaction that is
-- simulated, and its signature. XDR, SHA-256 and Ed25519 are libraries'.
use stellar_agent_guard_cont.Common.{
  ℕ, ℤ, pos, Option, none, some, List, [], ◌∷◌, ◌++◌, drop, ◌==◌, if◌then◌else◌,
}
use stellar_agent_guard_cont.Types.Policy.{Address}
use stellar_agent_guard_cont.AgentTx.Strkey.{
  Checked, accepted, refused, decode_strkey, strkey_encode, ver_account, ver_secret,
}
use stellar_agent_guard_cont.AgentTx.Call.{InvokeContractArgs, CallKind}
use stellar_agent_guard_cont.AgentTx.Footprint.{LedgerFootprint, guard_footprint}
use stellar_agent_guard_cont.AgentTx.Fees.{inclusion_fee_fallback}

-- The signed payload of an authorization.
pub record Preimage : Type 0 where
  pub network_id : List ℕ
  pub nonce : ℤ
  pub signature_expiration_ledger : ℕ
  pub invocation : InvokeContractArgs

pub record AuthEntry : Type 0 where
  pub address : Address
  pub nonce : ℤ
  pub signature_expiration_ledger : ℕ
  pub signature : List ℕ
  pub root_invocation : InvokeContractArgs

pub record Operation : Type 0 where
  pub host_function : InvokeContractArgs
  pub auth : List AuthEntry

pub record TransactionData : Type 0 where
  pub footprint : LedgerFootprint
  pub instructions : ℕ
  pub disk_read_bytes : ℕ
  pub write_bytes : ℕ
  pub resource_fee : ℤ

pub record Transaction : Type 0 where
  pub source_account : List ℕ
  pub fee : ℕ
  pub seq_num : ℤ
  pub operation : Operation
  pub ext : TransactionData

-- A signature and the last four bytes of its key.
pub record Envelope : Type 0 where
  pub tx : Transaction
  pub signatures : List (List ℕ × List ℕ)

pub record Crypto : Type 1 where
  pub SigningKey : Type 0
  pub from_seed : List ℕ → SigningKey
  pub verifying_key : SigningKey → List ℕ
  pub sign : SigningKey → List ℕ → List ℕ
  pub sha256 : List ℕ → List ℕ
  pub preimage_xdr : Preimage → List ℕ
  pub tx_xdr : Transaction → List ℕ

-- `none` where the tool exits.
abbrev pub secret_to_seed : List ℕ → Option (List ℕ)
secret_to_seed secret = seed_of (decode_strkey secret)
  where
    seed_of : Checked (ℕ × List ℕ) → Option (List ℕ)
    seed_of (accepted (version, seed)) = if version == ver_secret then some seed else none
    seed_of (refused e) = none

abbrev pub account_strkey : List ℕ → List ℕ
account_strkey pubkey = strkey_encode ver_account pubkey

abbrev pub invoke_op : InvokeContractArgs → List AuthEntry → Operation
invoke_op invocation auth = record { host_function = invocation; auth = auth }

unfoldable pub build_initial_envelope : List ℕ → ℤ → Operation → Address → CallKind → Envelope
build_initial_envelope source seq op guard kind = record {
  tx = record {
    source_account = source;
    fee = inclusion_fee_fallback;
    seq_num = seq;
    operation = op;
    ext = record {
      footprint = guard_footprint guard kind;
      instructions = 0;
      disk_read_bytes = 0;
      write_bytes = 0;
      resource_fee = pos 0;
    };
  };
  signatures = [];
}

-- `EnvelopeType::Tx` as four bytes
abbrev envelope_type_tx : List ℕ
envelope_type_tx = 0 ∷ 0 ∷ 0 ∷ 2 ∷ []

module _ (c : Crypto) where
  open c use {SigningKey, verifying_key, sign, sha256, preimage_xdr, tx_xdr}

  unfoldable pub build_auth_entry :
      Address → InvokeContractArgs → ℤ → ℕ → List ℕ → SigningKey → AuthEntry
  build_auth_entry guard invocation nonce sig_exp network_id agent = record {
    address = guard;
    nonce = nonce;
    signature_expiration_ledger = sig_exp;
    signature = sign agent (
        sha256 (
          preimage_xdr (record {
            network_id = network_id;
            nonce = nonce;
            signature_expiration_ledger = sig_exp;
            invocation = invocation;
          })));
    root_invocation = invocation;
  }

  unfoldable pub tx_hash : Transaction → List ℕ → List ℕ
  tx_hash tx network_id = sha256 (network_id ++ (envelope_type_tx ++ tx_xdr tx))

  unfoldable pub sign_envelope : Envelope → List ℕ → SigningKey → Envelope
  unfolding tx_hash
  sign_envelope env network_id agent = record {
    tx = env.tx;
    signatures = (drop 28 (verifying_key agent), sign agent (tx_hash env.tx network_id)) ∷ [];
  }
