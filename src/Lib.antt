-- ===== src/Lib.antt =====
-- The Stellar Agent Guard contract: a Soroban custom account whose policy decides what an agent's key
-- may authorize.
--
-- The program's parts. An administrator installs a policy (src/lib.rs, `set_policy`), which is validated
-- (`first_failing_rule`). For each authorization the host calls `__check_auth` (src/lib.rs) with the
-- contexts that the agent signed. It loads one snapshot of the storage, and the pure `decide`
-- (src/engine.rs) judges every context against the policy and the rolling ledger (src/window.rs); what
-- passes is staged, and committed to the ledger only if every context passed. Then the ledger is written
-- back. `check`, `check_detailed` and `check_batch` ask `decide` the same without writing. The tool
-- agent-tx builds the transaction that makes the host call `__check_auth`: it checks its flags, simulates
-- the signed call, declares the guard's storage keys, and submits what the simulation admitted.
--
-- Where each part is modelled:
-- - Common: Booleans, options, lists, and integers. `i128` is an integer with its limits written out
--   (`saturating_add`, `saturating_sub`, `checked_add` cut off or fail at the limits of 128 bits); `u64`
--   and `u32` are natural numbers whose saturating sums are cut off at their largest value.
-- - Types: src/types.rs. Policy holds `PolicyConfig` and its limits, Error the error codes and reasons,
--   Ledger what is stored of the window.
-- - Host: what the Soroban host and SDK provide, as a record with laws: conversions of values, signature
--   verification, hashing, XDR. Every definition that uses one takes the record as an argument.
-- - Window: src/window.rs. Single has `SingleLedger` with `ledger_from_entries`, `prune_entries` and
--   `admit_to_ledger`; Protocol the same for protocol calls; Ledger the whole `Ledger`. Sums, Search,
--   Prune, Expiry, Admit and Rebuild are about one window of spends, Calls about the protocol calls.
-- - Engine: src/engine.rs. Caps has the lookups, Parse has `parse_call`, Evaluate has the rules of one
--   context on what the request has staged so far, and Decide has `decide`. Spends, Requested, Commit and
--   Ceiling are about the window's cap over one request, CallRate about the limit of protocol calls,
--   Permit and Gates about which calls pass, Recovery about a window without recent spends.
-- - Contract: src/lib.rs. Storage has the storage keys as a record, the events and the frame in which an
--   entry point runs: a call that panics or traps keeps no change. Validate, Admin, Liveness, Snapshot,
--   CheckAuth and Reads have the entry points. Install, Entries, Operations, Reload, Granted, Preflight,
--   Unsaved and History are about them. Scval has the check of a policy in its wire form: the bytes of a
--   symbol, the entries of a map, and which of them a conversion may be given; Scval/Wire writes policies.
-- - AgentTx: the command line tool under tools/agent-tx. Base32 and Strkey are src/base32.rs and
--   src/strkey.rs of it, Network is its src/network.rs, and the rest its src/main.rs: Call the calls and
--   nonces, Footprint the declared storage keys, Fees the fees, Envelope the transactions, Outcome the
--   answers of the RPC and the exit codes, Json and Report the reading of simulations, Run `run`, and
--   Run/Preflight `preflight`, Registry the guards, Flags and Request the command line, Main the dispatch
--   of `main`, and Status `cmd_status`. Text has the
--   methods of `str`: a text that is compared is a native text, one that is taken apart the list of its
--   characters' codes. Messages are constructors. The RPC, the cryptography, XDR and the parsers of JSON
--   and of addresses are records of functions that the definitions take.
-- - Scenarios: a small host, policy and storage, with runs on them.
--
-- Correspondence. A Rust function keeps its name; a loop or a part of a function that has a definition of
-- its own says so. A function that changes its argument (`&mut self`) returns the changed value. A call
-- of the contract is a function from the environment and the storage to an outcome. Addresses are
-- numbered, since the program only compares them; keys, messages and signatures are numbers too.
--
-- Bounds and fuel. The binary search of `prune_entries` runs on fuel: one more than the number of entries
-- is enough, since each round halves the range. The inner loops of the base-32 codec take the number of
-- bits held as fuel, and each round takes at least 5 of them. A run polls 20 times, as the code does. All
-- other loops are structural recursion.
--
-- Not modelled: extending the lifetime of storage entries, which changes no value; the conversions
-- between `usize` and `u32` of lengths that the policy and the window keep below 2^32; the worst-case
-- policies of src/engine.rs; of the command line tool the subcommands `check` and `policy`, the arguments
-- of the `guards` subcommands, the help texts, printing, and file and process I/O; tests, benchmarks and
-- fuzz targets.
pub mod Common
pub mod Types
pub mod Host
pub mod Window
pub mod Engine
pub mod Contract
pub mod AgentTx
pub mod Scenarios
