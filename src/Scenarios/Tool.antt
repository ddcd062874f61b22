-- ===== src/Scenarios/Tool.antt =====
-- The command line tool on small inputs: endpoints, invocations, footprints, fees and the registry.
use Prim.Native.String.{String}
use stellar_agent_guard_cont.Common.{
  ℕ, ◌+◌, ◌≤◌, ◌≡◌, refl, ◌⊎◌, pos, ℤ, in_i128, true, false, not, ◌&&◌, ◌||◌, Option, none, some,
  List, [], ◌∷◌, length, arith, u32_max, checked_add, ◌+ℤ◌, saturating_add,
}
use stellar_agent_guard_cont.Types.Error.{Error}
use stellar_agent_guard_cont.Types.Ledger.{WindowState}
use stellar_agent_guard_cont.Host.{Context}
use stellar_agent_guard_cont.Window.Ledger.{
  empty, prune, admit, admit_protocol_call, to_state, from_state,
}
use stellar_agent_guard_cont.Window.Single.{prune_entries, admit_to_ledger}
use stellar_agent_guard_cont.Window.Protocol.{
  prune_protocol_call_entries, admit_to_protocol_call_ledger,
}
use stellar_agent_guard_cont.Engine.Caps.{
  contains_addr, recipient_override_cap, effective_per_tx_cap, checked_window_projection,
}
use stellar_agent_guard_cont.Engine.Parse.{parse_call, asset_transfer}
use stellar_agent_guard_cont.Engine.Evaluate.{asset_paused, evaluate}
use stellar_agent_guard_cont.Engine.Decide.{account_error, decide}
use stellar_agent_guard_cont.Contract.Snapshot.{
  AuthSnapshot, load_snapshot, emit_verdicts, emit_window_merges,
}
use stellar_agent_guard_cont.Contract.Storage.{Outcome, done}
use stellar_agent_guard_cont.Contract.CheckAuth.{authorize, persist, saves_window, check_auth}
use stellar_agent_guard_cont.Contract.CheckAuth.Effects.{decided}
use stellar_agent_guard_cont.AgentTx.Network.{resolve_endpoint}
use stellar_agent_guard_cont.AgentTx.Network.Select.{Selects, resolve_endpoint-Selects}
use stellar_agent_guard_cont.AgentTx.Call
use stellar_agent_guard_cont.AgentTx.Call.{CallKind, ScVal, invocation, auth_nonce}
use stellar_agent_guard_cont.AgentTx.Call.Parts.{joined, auth_nonce_injective}
use stellar_agent_guard_cont.AgentTx.Call.Parse.{Wire, context_of, parse_call-invocation}
use stellar_agent_guard_cont.AgentTx.Footprint.{
  other_key, LedgerFootprint, contains_key, guard_footprint, merge_guard_footprint, guard_data_key,
  window,
}
use stellar_agent_guard_cont.AgentTx.Footprint.Merge.{merge_guard_footprint_lem}
use stellar_agent_guard_cont.AgentTx.Footprint.Covers
use stellar_agent_guard_cont.AgentTx.Footprint.Covers.{
  ChangesDeclared, data_ledger_key, check_auth-ChangesDeclared, heartbeat_window_undeclared,
}
use stellar_agent_guard_cont.AgentTx.Fees.{calculate_fee, fee_floor_of}
use stellar_agent_guard_cont.AgentTx.Fees.Bounds.{calculate_fee_covers}
use stellar_agent_guard_cont.AgentTx.Registry.{
  Edit, add, remove, set, no_guards, edits, resolve_guard,
}
use stellar_agent_guard_cont.AgentTx.Registry.Valid.{
  AliasesApart, AddressesApart, Resolves, resolve_guard-edits,
}
use stellar_agent_guard_cont.Scenarios.{
  Value, of_address, of_number, small_host, small_policy, small_storage, env_at, pay,
}
use stellar_agent_guard_cont.Scenarios.Calls.{left_by, paid, pay_passes}

-- A preset's endpoint is recognised in any case of letters.
abbrev mainnet_url : String
mainnet_url = "http://SOROBAN.stellar.org/rpc"

resolve_endpoint-Selects_example :
    Selects none (some mainnet_url) none (resolve_endpoint none (some mainnet_url) none)
resolve_endpoint-Selects_example = resolve_endpoint-Selects none (some mainnet_url) none

abbrev to_value : ScVal → Value
to_value (ScVal.address a) = of_address a
to_value (ScVal.i128 hi lo) = of_number (joined hi lo)

small_i128_wire :
    (hi : ℤ) (lo : ℕ)
    → in_i128 (joined hi lo) ≡ true
    → small_host.i128_of (to_value (ScVal.i128 hi lo)) ≡ some (joined hi lo)
small_i128_wire hi lo h = small_host.i128_of-i128_val (joined hi lo) h

abbrev small_wire : Wire small_host
small_wire = record { to_val = to_value; address_wire = λ a. refl; i128_wire = small_i128_wire }

parse_call-invocation_example :
    parse_call small_host 4
      (context_of small_host small_wire (invocation (Call.transfer 7 3 (pos 40)) 4))
      small_policy
    ≡ asset_transfer 7 3 (pos 40)
unfolding contains_addr
parse_call-invocation_example =
    parse_call-invocation small_host small_wire (Call.transfer 7 3 (pos 40)) 4 small_policy refl
      refl

auth_nonce_injective_example : ◌≡◌ {A = ℕ} 5 5 × ◌≡◌ {A = ℕ} 7 7
auth_nonce_injective_example =
    auth_nonce_injective 5 5 7 7 (omega arith) (omega arith) (omega arith) (omega arith) refl

-- A simulation that reads the window and writes an entry of the token.
abbrev simulated_footprint : LedgerFootprint
simulated_footprint = record { reads = guard_data_key 4 window ∷ []; writes = other_key 1 ∷ [] }

merge_guard_footprint_lem_example :
    let merged = merge_guard_footprint simulated_footprint 4 CallKind.transfer in
    let own = guard_footprint 4 CallKind.transfer in
    (contains_key merged.writes (guard_data_key 4 window)
      ≡ contains_key (other_key 1 ∷ []) (guard_data_key 4 window)
        || contains_key own.writes (guard_data_key 4 window))
    × (contains_key merged.reads (guard_data_key 4 window)
        ≡ (contains_key (guard_data_key 4 window ∷ []) (guard_data_key 4 window)
            && not (contains_key own.writes (guard_data_key 4 window)))
          || (contains_key own.reads (guard_data_key 4 window)
              && not (contains_key (other_key 1 ∷ []) (guard_data_key 4 window))))
merge_guard_footprint_lem_example =
    merge_guard_footprint_lem simulated_footprint 4 CallKind.transfer (guard_data_key 4 window)

check_auth-ChangesDeclared_example :
    ChangesDeclared CallKind.transfer 4 small_storage (left_by paid)
check_auth-ChangesDeclared_example =
    check_auth-ChangesDeclared small_host 2 7 (pay (pos 40) ∷ []) (env_at 20) small_storage
      (left_by paid) 4 none pay_passes

-- A heartbeat after the spend has left the window.
abbrev beat : Context Value
beat = Context.contract 4 "heartbeat" []

abbrev beaten : Outcome (Option Error)
beaten = check_auth small_host 2 7 (beat ∷ []) (env_at 200) (left_by paid)

beat_passes : beaten ≡ done none (left_by beaten)
unfolding check_auth authorize emit_verdicts decide account_error evaluate parse_call contains_addr
    asset_paused effective_per_tx_cap checked_window_projection checked_add ◌+ℤ◌ prune prune_entries
    empty recipient_override_cap persist emit_window_merges admit admit_to_ledger saturating_add
    prune_protocol_call_entries saves_window admit_protocol_call admit_to_protocol_call_ledger
    from_state
beat_passes = refl

abbrev stored : Option WindowState → WindowState
stored (some w) = w
stored none = to_state empty

paid_window : (left_by paid).window ≡ some (stored (left_by paid).window)
unfolding check_auth authorize emit_verdicts decide account_error evaluate parse_call contains_addr
    asset_paused effective_per_tx_cap checked_window_projection checked_add ◌+ℤ◌ prune prune_entries
    empty recipient_override_cap persist emit_window_merges admit admit_to_ledger saturating_add
    prune_protocol_call_entries saves_window admit_protocol_call admit_to_protocol_call_ledger
paid_window = refl

heartbeat_window_undeclared_example :
    (snap : AuthSnapshot) × (load_snapshot (left_by paid) ≡ some snap)
    × ((left_by beaten).window
        ≡ some (to_state (decided small_host snap (env_at 200) (beat ∷ [])).1))
    × (contains_key
          (guard_footprint 4 CallKind.heartbeat).writes
          (data_ledger_key Covers.DataKey.window 4)
        ≡ false)
heartbeat_window_undeclared_example =
    heartbeat_window_undeclared small_host 2 7 (beat ∷ []) (env_at 200) (left_by paid)
      (left_by beaten) 4 (stored (left_by paid).window) beat_passes paid_window

calculate_fee_covers_example :
    let fee = calculate_fee 500 100 in
    let own = guard_footprint 4 CallKind.heartbeat in
    (fee ≤ u32_max)
    × ((fee ≡ u32_max) ⊎ (500 + 100 + fee_floor_of (length own.reads + length own.writes) ≤ fee))
calculate_fee_covers_example = calculate_fee_covers 500 100 4 CallKind.heartbeat

abbrev some_edits : List Edit
some_edits =
    add (record { alias = "prod"; address = "C1"; admin = "G1"; added_at = 10 })
    ∷ add (record { alias = "test"; address = "C1"; admin = "G1"; added_at = 11 })
    ∷ add (record { alias = "test"; address = "C2"; admin = "G1"; added_at = 12 })
    ∷ remove "prod"
    ∷ set "prod"
    ∷ []

resolve_guard-edits_example :
    let reg = edits no_guards some_edits in
    AliasesApart reg.guards × AddressesApart reg.guards × Resolves reg (resolve_guard reg none)
resolve_guard-edits_example = resolve_guard-edits some_edits
