-- ===== src/Contract/Admin.antt =====
-- The entry points of the administrator: initialization, policies, the agent's key, the hand-over.
use stellar_agent_guard_cont.Common.{
  ℕ, Bool, true, false, not, Option, none, some, List, take, is_some, if◌then◌else◌, get_or_else,
}
use stellar_agent_guard_cont.Types.Policy.{Address, addr_eq, PolicyConfig}
use stellar_agent_guard_cont.Types.Error.{
  Error, already_initialized, not_initialized, invalid_config, no_pending_admin, no_policy,
}
use stellar_agent_guard_cont.Host.{Host}
use stellar_agent_guard_cont.Window.Ledger.{empty}
use stellar_agent_guard_cont.Contract.Storage.{
  Call, policy_set_by, policy_revoked_by, paused_by, resumed_by, window_reset_by, agent_rotated,
  admin_rotation_proposed, admin_rotated, admin_rotation_cancelled, initialized_by, pure, panic,
  gets, or_panic, timestamp, current_contract_address, modify, require_auth, publish, when, ◌>>=◌,
  ◌>>◌, revision, increment_revision, save_ledger,
}
use stellar_agent_guard_cont.Contract.Validate.{validate_config}

unfoldable pub initialize : Address → ℕ → Call (Unit {0})
initialize admin agent_pubkey = do
  already ← gets (λ s. get_or_else s.initialized false)
  when already (panic already_initialized)
  require_auth admin
  modify (λ s. record s { admin = some admin })
  modify (λ s. record s { agent_pubkey = some agent_pubkey })
  modify (λ s. record s { initialized = some true })
  modify (λ s. record s { admin_frozen = some false })
  modify (λ s. record s { last_heartbeat = some 0 })
  publish (initialized_by admin)

unfoldable pub admin_or_panic : Call Address
admin_or_panic = do
  admin ← gets (λ s. s.admin)
  a ← or_panic admin not_initialized
  require_auth a
  pure a

abbrev pub config_or_panic : Option Error → Call (Unit {0})
config_or_panic none = pure tt
config_or_panic (some e) = panic e

-- A first install starts an empty window and the heartbeat clock; an edit keeps both.
unfoldable pub set_policy : PolicyConfig → Call (Unit {0})
unfolding admin_or_panic
set_policy config = do
  admin ← admin_or_panic
  self_addr ← current_contract_address
  config_or_panic (validate_config self_addr config)
  first_install ← gets (λ s. not (is_some s.policy))
  modify (λ s. record s { policy = some config })
  increment_revision
  when first_install
      (do save_ledger empty; now ← timestamp; modify (λ s. record s { last_heartbeat = some now }))
  rev ← gets revision
  publish (policy_set_by admin rev)

unfoldable pub reset_window : Call (Unit {0})
unfolding admin_or_panic
reset_window = do
  admin ← admin_or_panic
  modify (λ s. record s { window = none })
  publish (window_reset_by admin)

abbrev pub bool_eq : Bool → Bool → Bool
bool_eq true b = b
bool_eq false b = not b

unfoldable pub set_paused : Bool → Call (Unit {0})
unfolding admin_or_panic
set_paused paused = do
  admin ← admin_or_panic
  stored ← gets (λ s. s.policy)
  cfg ← or_panic stored no_policy
  when (not (bool_eq cfg.paused paused)) (do
    modify (λ s. record s { policy = some (record cfg { paused = paused }) })
    increment_revision)
  rev ← gets revision
  publish (if paused then paused_by admin rev else resumed_by admin rev)

unfoldable pub pause : Call (Unit {0})
unfolding set_paused
pause = set_paused true

unfoldable pub resume : Call (Unit {0})
unfolding set_paused
resume = set_paused false

unfoldable pub revoke_policy : Call (Unit {0})
unfolding admin_or_panic
revoke_policy = do
  admin ← admin_or_panic
  modify (λ s. record s { policy = none })
  modify (λ s. record s { window = none })
  increment_revision
  rev ← gets revision
  publish (policy_revoked_by admin rev)

module _ (h : Host) where
  open h use {sha256, key_bytes}

  -- The first 8 bytes of the digest of a key.
  unfoldable pub key_fingerprint : ℕ → List ℕ
  key_fingerprint pubkey = take 8 (sha256 (key_bytes pubkey))

  unfoldable pub rotate_agent_key : ℕ → Call (Unit {0})
  unfolding admin_or_panic key_fingerprint
  rotate_agent_key new_pubkey = do
    admin ← admin_or_panic
    stored ← gets (λ s. s.agent_pubkey)
    old_pubkey ← or_panic stored not_initialized
    modify (λ s. record s { agent_pubkey = some new_pubkey })
    publish (agent_rotated admin (key_fingerprint old_pubkey) (key_fingerprint new_pubkey))

unfoldable pub propose_admin_rotation : Address → Call (Unit {0})
unfolding admin_or_panic
propose_admin_rotation new_admin = do
  admin ← admin_or_panic
  when (addr_eq new_admin admin) (panic invalid_config)
  modify (λ s. record s { pending_admin = some new_admin })
  publish (admin_rotation_proposed admin new_admin)

unfoldable pub confirm_admin_rotation : Call (Unit {0})
confirm_admin_rotation = do
  current ← gets (λ s. s.admin)
  old ← or_panic current not_initialized
  proposed ← gets (λ s. s.pending_admin)
  pending ← or_panic proposed no_pending_admin
  require_auth pending
  modify (λ s. record s { admin = some pending })
  modify (λ s. record s { pending_admin = none })
  publish (admin_rotated old pending)

unfoldable pub cancel_admin_rotation : Call (Unit {0})
unfolding admin_or_panic
cancel_admin_rotation = do
  admin ← admin_or_panic
  proposed ← gets (λ s. s.pending_admin)
  pending ← or_panic proposed no_pending_admin
  modify (λ s. record s { pending_admin = none })
  publish (admin_rotation_cancelled admin pending)
