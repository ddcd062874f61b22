-- ===== src/Contract/Entries.antt =====
-- Every entry point of src/lib.rs that changes the storage but `__check_auth`, and who may change what.
use stellar_agent_guard_cont.Common.{
  ℕ, suc, ◌≡◌, ◌≢◌, ◌⊎◌, true, false, none, some, List, [], ◌∷◌, u64_add, get_or_else,
}
use stellar_agent_guard_cont.Types.Policy.{Address, PolicyConfig}
use stellar_agent_guard_cont.Host.{Host}
use stellar_agent_guard_cont.Contract.Storage.{Storage, Env, Call, Event, revision, dms_auto_frozen}
use stellar_agent_guard_cont.Contract.Admin.{set_policy, reset_window, revoke_policy}
use stellar_agent_guard_cont.Contract.Operations.{Operation, run}

pub data Entry : Type 0 where
  operation : Operation → Entry
  entry_set_policy : PolicyConfig → Entry
  entry_reset_window entry_revoke_policy : Entry

unfoldable pub run_entry : Host → Entry → Call (Unit {0})
run_entry h (operation op) = run h op
run_entry h (entry_set_policy cfg) = set_policy cfg
run_entry h entry_reset_window = reset_window
run_entry h entry_revoke_policy = revoke_policy

-- The account is as before, but for its heartbeat, the record of an expiry and the events.
abbrev SameControl : Storage → Storage → Type 0
SameControl s s' =
    (s'.admin ≡ s.admin)
    × (s'.pending_admin ≡ s.pending_admin)
    × (s'.agent_pubkey ≡ s.agent_pubkey)
    × (s'.admin_frozen ≡ s.admin_frozen)

-- A proposed administrator took over, with its consent.
abbrev TookOver : Env → Storage → Storage → Type 0
TookOver env s s' =
    (a : Address) × (s.pending_admin ≡ some a)
    × (env.authorizes a ≡ true)
    × (s'.admin ≡ some a)
    × (s'.pending_admin ≡ none)
    × (s'.agent_pubkey ≡ s.agent_pubkey)
    × (s'.admin_frozen ≡ s.admin_frozen)

-- An account that was not initialized got its first administrator, with its consent.
abbrev GotAdmin : Env → Storage → Storage → Type 0
GotAdmin env s s' =
    (a : Address) × (get_or_else s.initialized false ≡ false)
    × (env.authorizes a ≡ true)
    × (s'.admin ≡ some a)
    × (s'.initialized ≡ some true)

-- What can happen without the administrator's consent.
abbrev pub IsHarmless : Env → Storage → Storage → Type 0
IsHarmless env s s' =
    (s'.policy ≡ s.policy)
    × (s'.policy_revision ≡ s.policy_revision)
    × (s'.window ≡ s.window)
    × (SameControl s s' ⊎ TookOver env s s' ⊎ GotAdmin env s s')

-- The policy and its revision are as before, or the revision is the next one.
abbrev pub Tracked : Storage → Storage → Type 0
Tracked s s' =
    ((s'.policy ≡ s.policy) × (s'.policy_revision ≡ s.policy_revision))
    ⊎ (s'.policy_revision ≡ some (u64_add (revision s) 1))

-- How many expiries the events report.
abbrev pub expiries : List Event → ℕ
expiries [] = 0
expiries (dms_auto_frozen at ∷ es) = suc (expiries es)
expiries (_ ∷ es) = expiries es

-- An expiry is on record, and stays on it with no further one reported.
abbrev pub IsRecorded : Storage → Type 0
IsRecorded s = get_or_else s.auto_frozen_at 0 ≢ 0

abbrev pub KeepsRecord : Storage → Storage → Type 0
KeepsRecord s s' = (s'.auto_frozen_at ≡ s.auto_frozen_at) × (expiries s'.events ≡ expiries s.events)
