-- ===== src/Contract/Storage.antt =====
-- The contract's storage and events (DataKey of src/types.rs, the event types and the storage helpers
-- of src/lib.rs), and the frame in which an entry point runs.
use stellar_agent_guard_cont.Common.{
  ℕ, ℤ, Bool, true, false, Option, none, some, List, [], ◌∷◌, ◌++◌, u64_add, if◌then◌else◌,
  get_or_else,
}
use stellar_agent_guard_cont.Types.Policy.{Address, Symbol, PolicyConfig}
use stellar_agent_guard_cont.Types.Error.{Error}
use stellar_agent_guard_cont.Types.Ledger.{WindowState}
use stellar_agent_guard_cont.Window.Ledger.{Ledger, empty, from_state, to_state, WindowMergeKind}

pub data Event : Type 0 where
  -- result, reason, contract, function, context index, revision
  auth_checked : Symbol → Symbol → Option Address → Option Symbol → ℕ → ℕ → Event
  heartbeat_seen : ℕ → ℕ → Event
  dms_auto_frozen : ℕ → Event
  initialized_by : Address → Event
  frozen_by : Address → Event
  unfrozen_by : Address → Bool → Event
  policy_set_by : Address → ℕ → Event
  policy_revoked_by : Address → ℕ → Event
  paused_by : Address → ℕ → Event
  resumed_by : Address → ℕ → Event
  window_reset_by : Address → Event
  agent_rotated : Address → List ℕ → List ℕ → Event
  window_merged : WindowMergeKind → ℕ → ℤ → Event
  admin_rotation_proposed : Address → Address → Event
  admin_rotated : Address → Address → Event
  admin_rotation_cancelled : Address → Address → Event

-- One field for each `DataKey`, `none` where the key is absent, and the events published so far.
pub record Storage : Type 0 where
  pub initialized : Option Bool
  pub admin : Option Address
  pub pending_admin : Option Address
  pub agent_pubkey : Option ℕ
  pub policy : Option PolicyConfig
  pub window : Option WindowState
  pub last_heartbeat : Option ℕ
  pub admin_frozen : Option Bool
  pub auto_frozen_at : Option ℕ
  pub policy_revision : Option ℕ
  pub events : List Event

-- What an invocation sees of the host: the time, the contract's address, and which addresses'
-- `require_auth` succeeds.
pub record Env : Type 0 where
  pub now : ℕ
  pub self_addr : Address
  pub authorizes : Address → Bool

-- A call that panics or traps leaves no trace: the host rolls the storage and the events back.
pub data Outcome (A : Type 0) : Type 0 where
  done : A → Storage → Outcome A
  panicked : Error → Outcome A
  trapped : Outcome A

abbrev pub Call : Type 0 → Type 0
Call A = Env → Storage → Outcome A

module _ {A : Type 0} where
  abbrev pub pure : A → Call A
  pure a env s = done a s

  abbrev pub panic : Error → Call A
  panic e env s = panicked e

  abbrev pub gets : (Storage → A) → Call A
  gets f env s = done (f s) s

  -- `let Some(a) = o else { panic_with_error!(env, e) }`
  abbrev pub or_panic : Option A → Error → Call A
  or_panic none e = panic e
  or_panic (some a) e = pure a

abbrev pub timestamp : Call ℕ
timestamp env s = done env.now s

abbrev pub current_contract_address : Call Address
current_contract_address env s = done env.self_addr s

abbrev pub modify : (Storage → Storage) → Call (Unit {0})
modify f env s = done tt (f s)

abbrev pub require_auth : Address → Call (Unit {0})
require_auth a env s = if env.authorizes a then done tt s else trapped

abbrev pub publish : Event → Call (Unit {0})
publish e env s = done tt (record s { events = s.events ++ e ∷ [] })

abbrev pub when : Bool → Call (Unit {0}) → Call (Unit {0})
when true m = m
when false m = pure tt

infixl 5 ◌>>=◌ ◌>>◌
abbrev pub ◌>>=◌ : {A B : Type 0} → Call A → (A → Call B) → Call B
◌>>=◌ m f env s = elim (m env s) [
  | done a s' ↦ f a env s'
  | panicked e ↦ panicked e
  | trapped ↦ trapped
]

abbrev pub ◌>>◌ : {A B : Type 0} → Call A → Call B → Call B
m >> k = m >>= λ _. k

-- `persist_get::<u64>(env, &DataKey::PolicyRevision).unwrap_or(0)`
abbrev pub revision : Storage → ℕ
revision s = get_or_else s.policy_revision 0

abbrev pub heartbeat_at : Storage → ℕ
heartbeat_at s = get_or_else s.last_heartbeat 0

abbrev pub is_frozen : Storage → Bool
is_frozen s = get_or_else s.admin_frozen false

-- `increment_revision`
abbrev pub increment_revision : Call (Unit {0})
increment_revision = modify (λ s. record s { policy_revision = some (u64_add (revision s) 1) })

abbrev pub loaded : Option WindowState → Ledger × Bool
loaded (some state) = (from_state state, true)
loaded none = (empty, false)

-- `load_window`: the ledger, and whether the key was there.
abbrev pub load_window : Storage → Ledger × Bool
load_window s = loaded s.window

abbrev pub save_ledger : Ledger → Call (Unit {0})
save_ledger l = modify (λ s. record s { window = some (to_state l) })
