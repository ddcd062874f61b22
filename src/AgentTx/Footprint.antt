-- ===== src/AgentTx/Footprint.antt =====
-- Footprints of tools/agent-tx/src/main.rs: which of the guard's storage keys a transaction declares for
-- writing and which for reading.
pub mod Merge
pub mod Covers
use stellar_agent_guard_cont.Common.{
  ℕ, Bool, true, false, not, ◌&&◌, ◌||◌, List, [], ◌∷◌, ◌++◌, ◌==◌, if◌then◌else◌,
}
use stellar_agent_guard_cont.Types.Policy.{Address, Symbol, addr_eq, sym_eq}
use stellar_agent_guard_cont.AgentTx.Call.{CallKind, transfer, heartbeat, read_only}

pub data GuardKey : Type 0 where
  policy window last_heartbeat admin_frozen : GuardKey

abbrev pub check_auth_reads : List GuardKey
check_auth_reads = policy ∷ window ∷ last_heartbeat ∷ admin_frozen ∷ []

abbrev pub variant : GuardKey → Symbol
variant policy = "Policy"
variant window = "Window"
variant last_heartbeat = "LastHeartbeat"
variant admin_frozen = "AdminFrozen"

pub data Durability : Type 0 where
  temporary persistent : Durability

-- The keys of a ledger: contract data whose key is a vector of one symbol or the instance; all others
-- are numbered.
pub data StorageVal : Type 0 where
  symbol_vec : Symbol → StorageVal
  contract_instance : StorageVal
  other_val : ℕ → StorageVal

pub data LedgerKey : Type 0 where
  contract_data : Address → StorageVal → Durability → LedgerKey
  other_key : ℕ → LedgerKey

abbrev pub durability_eq : Durability → Durability → Bool
durability_eq temporary temporary = true
durability_eq persistent persistent = true
durability_eq _ _ = false

abbrev pub val_eq : StorageVal → StorageVal → Bool
val_eq (symbol_vec s) (symbol_vec t) = sym_eq s t
val_eq contract_instance contract_instance = true
val_eq (other_val m) (other_val n) = m == n
val_eq _ _ = false

unfoldable pub key_eq : LedgerKey → LedgerKey → Bool
key_eq (contract_data a k d) (contract_data b l e) =
    addr_eq a b && (val_eq k l && durability_eq d e)
key_eq (other_key m) (other_key n) = m == n
key_eq _ _ = false

-- `GuardKey::scval`
abbrev pub scval : GuardKey → StorageVal
scval key = symbol_vec (variant key)

abbrev pub guard_data_key : Address → GuardKey → LedgerKey
guard_data_key guard key = contract_data guard (scval key) persistent

abbrev pub guard_instance_key : Address → LedgerKey
guard_instance_key guard = contract_data guard contract_instance persistent

pub data StorageTarget : Type 0 where
  of_key : GuardKey → StorageTarget
  instance_target : StorageTarget

abbrev pub to_ledger_key : StorageTarget → Address → LedgerKey
to_ledger_key (of_key key) guard = guard_data_key guard key
to_ledger_key instance_target guard = guard_instance_key guard

pub data WriteCondition : Type 0 where
  always never on_transfer on_heartbeat : WriteCondition

abbrev pub is_written : WriteCondition → CallKind → Bool
is_written always _ = true
is_written never _ = false
is_written on_transfer transfer = true
is_written on_transfer _ = false
is_written on_heartbeat heartbeat = true
is_written on_heartbeat _ = false

pub record StorageKeyTouch : Type 0 where
  pub target : StorageTarget
  pub written_on : WriteCondition

abbrev pub guard_storage_touches : List StorageKeyTouch
guard_storage_touches =
    record { target = of_key policy; written_on = never }
    ∷ record { target = of_key admin_frozen; written_on = never }
    ∷ record { target = of_key window; written_on = on_transfer }
    ∷ record { target = of_key last_heartbeat; written_on = on_heartbeat }
    ∷ record { target = instance_target; written_on = always }
    ∷ []

pub record LedgerFootprint : Type 0 where
  pub reads : List LedgerKey
  pub writes : List LedgerKey

unfoldable pub contains_key : List LedgerKey → LedgerKey → Bool
contains_key [] k = false
contains_key (x ∷ xs) k = key_eq x k || contains_key xs k

-- `retain(|k| k != &key)`
unfoldable pub retain_others : List LedgerKey → LedgerKey → List LedgerKey
retain_others [] key = []
retain_others (x ∷ xs) key =
    let rest = retain_others xs key in if key_eq x key then rest else x ∷ rest

unfoldable pub push_missing : List LedgerKey → LedgerKey → List LedgerKey
push_missing ks key = if contains_key ks key then ks else ks ++ (key ∷ [])

-- A round of the loop of `guard_footprint`.
abbrev pub declare : LedgerFootprint → LedgerKey → Bool → LedgerFootprint
declare fp key true = record fp { writes = fp.writes ++ (key ∷ []) }
declare fp key false = record fp { reads = fp.reads ++ (key ∷ []) }

-- A round of the loop of `merge_guard_footprint`.
unfoldable pub merge_key : LedgerFootprint → LedgerKey → Bool → LedgerFootprint
merge_key fp key true = record {
  reads = retain_others fp.reads key;
  writes = push_missing fp.writes key;
}
merge_key fp key false =
    if contains_key fp.writes key then fp else record fp { reads = push_missing fp.reads key }

module _ (guard : Address) (kind : CallKind) where
  abbrev pub declare_all : List StorageKeyTouch → LedgerFootprint → LedgerFootprint
  declare_all [] fp = fp
  declare_all (t ∷ ts) fp =
      declare_all ts (declare fp (to_ledger_key t.target guard) (is_written t.written_on kind))

  abbrev pub merge_all : List StorageKeyTouch → LedgerFootprint → LedgerFootprint
  merge_all [] fp = fp
  merge_all (t ∷ ts) fp =
      merge_all ts (merge_key fp (to_ledger_key t.target guard) (is_written t.written_on kind))

unfoldable pub guard_footprint : Address → CallKind → LedgerFootprint
guard_footprint guard kind =
    declare_all guard kind guard_storage_touches (record { reads = []; writes = [] })

unfoldable pub merge_guard_footprint : LedgerFootprint → Address → CallKind → LedgerFootprint
merge_guard_footprint fp guard kind = merge_all guard kind guard_storage_touches fp
