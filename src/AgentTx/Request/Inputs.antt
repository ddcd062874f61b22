-- ===== src/AgentTx/Request/Inputs.antt =====
-- What holds of the inputs that `parse_request` accepts.
use Prim.Native.String.{String}
use stellar_agent_guard_cont.Common.{ℕ, ℤ, ◌<◌, ◌≡◌, is_some, true, false, Option, some, List}
use stellar_agent_guard_cont.Types.Policy.{Address, sym_eq}
use stellar_agent_guard_cont.AgentTx.Text.{ok, codes}
use stellar_agent_guard_cont.AgentTx.Strkey.{
  accepted, KeyKind, contract_id, recipient_id, validate_key,
}
use stellar_agent_guard_cont.AgentTx.Network.{resolve_endpoint}
use stellar_agent_guard_cont.AgentTx.Envelope.{secret_to_seed}
use stellar_agent_guard_cont.AgentTx.Request.{Request, SpendInputs, World, needs_secret, is_spend}

module _ (w : World) where
  -- An address that was read from a checked key of one of the kinds.
  abbrev pub IsKeyOf : KeyKind → Address → Type 0
  IsKeyOf kind a =
      (raw : String) × (key : List ℕ) × (validate_key kind (codes raw) ≡ accepted key)
      × (w.parse_address raw ≡ some a)

  -- What a request that was accepted holds.
  pub record IsChecked (cmd : String) (r : Request) : Type 0 where
    pub guard_key : IsKeyOf contract_id r.guard
    pub token_key : (a : Address) → r.token ≡ some a → IsKeyOf contract_id a
    pub from_key : (a : Address) → r.from ≡ some a → IsKeyOf recipient_id a
    pub to_key : (a : Address) → r.to ≡ some a → IsKeyOf recipient_id a
    -- a command that submits has a secret, which gives a seed
    pub signer :
        needs_secret cmd ≡ true
        → (s : String) × (seed : List ℕ) × (r.secret ≡ some s)
          × (secret_to_seed (codes s) ≡ some seed)
    -- a spend has a token, a recipient and an amount
    pub spend :
        is_spend cmd ≡ true
        → (token : Address) × (to : Address) × (amount : ℤ) × (r.token ≡ some token)
          × (r.to ≡ some to)
          × (r.amount ≡ some amount)
    -- the owner is given for `transfer-from` and for no other spend
    pub owner : is_spend cmd ≡ true → is_some r.from ≡ sym_eq cmd "transfer-from"
    pub timeout_positive : 0 < r.rpc_timeout
    pub no_block : sym_eq cmd "heartbeat" ≡ true → r.expect_blocked ≡ false
    pub selected : (n u p : Option String) × (resolve_endpoint n u p ≡ ok r.endpoint)

  -- The spend inputs of a command.
  record IsSpend (cmd : String) (i : SpendInputs) : Type 0 where
    token_key : (a : Address) → i.token ≡ some a → IsKeyOf contract_id a
    from_key : (a : Address) → i.from ≡ some a → IsKeyOf recipient_id a
    to_key : (a : Address) → i.to ≡ some a → IsKeyOf recipient_id a
    given :
        is_spend cmd ≡ true
        → (token : Address) × (to : Address) × (amount : ℤ) × (i.token ≡ some token)
          × (i.to ≡ some to)
          × (i.amount ≡ some amount)
    owner : is_spend cmd ≡ true → is_some i.from ≡ sym_eq cmd "transfer-from"
