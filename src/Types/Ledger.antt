-- ===== src/Types/Ledger.antt =====
-- The rolling ledgers as src/types.rs stores them.
use stellar_agent_guard_cont.Common.{ℕ, ℤ, List}
use stellar_agent_guard_cont.Types.Policy.{Address}

pub record SpendEntry : Type 0 where
  pub ts : ℕ
  pub amount : ℤ

pub record ProtocolCallEntry : Type 0 where
  pub ts : ℕ
  pub count : ℕ

pub record RecipientWindowState : Type 0 where
  pub recipient : Address
  pub total : ℤ
  pub entries : List SpendEntry

pub record WindowState : Type 0 where
  pub total : ℤ
  pub entries : List SpendEntry
  pub recipients : List RecipientWindowState
  pub protocol_call_entries : List ProtocolCallEntry
