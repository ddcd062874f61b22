-- ===== src/Window/Ledger.antt =====
-- `Ledger` of src/window.rs: the global window, one window for each recipient with a cap of its own,
-- the protocol calls, and the merges that this authorization made.
use stellar_agent_guard_cont.Common.{
  ℕ, ℤ, pos, none, some, List, [], ◌∷◌, ◌++◌, length, map, if◌then◌else◌,
}
use stellar_agent_guard_cont.Types.Policy.{Address, addr_eq}
use stellar_agent_guard_cont.Types.Ledger.{
  SpendEntry, ProtocolCallEntry, RecipientWindowState, WindowState,
}
use stellar_agent_guard_cont.Window.Single.{
  SingleLedger, Merge, ledger_from_entries, prune_entries, admit_to_ledger,
}
use stellar_agent_guard_cont.Window.Protocol.{
  ProtocolCallLedger, CallMerge, protocol_call_entries_from_state, prune_protocol_call_entries,
  admit_to_protocol_call_ledger,
}

pub data WindowMergeKind : Type 0 where
  global_spend recipient_spend protocol_calls : WindowMergeKind

pub record WindowMerge : Type 0 where
  pub kind : WindowMergeKind
  pub merged_ts : ℕ
  pub merged_value : ℤ

pub record RecipientLedger : Type 0 where
  pub recipient : Address
  pub total : ℤ
  pub entries : List SpendEntry

pub record Ledger : Type 0 where
  pub total : ℤ
  pub entries : List SpendEntry
  pub recipients : List RecipientLedger
  pub protocol_call_entries : List ProtocolCallEntry
  pub protocol_call_total : ℕ
  pub merges : List WindowMerge

unfoldable pub empty : Ledger
empty = record {
  total = pos 0;
  entries = [];
  recipients = [];
  protocol_call_entries = [];
  protocol_call_total = 0;
  merges = [];
}

-- The three kinds of window as the helpers take them.
abbrev pub global_window : Ledger → SingleLedger
global_window l = record { total = l.total; entries = l.entries }

abbrev pub recipient_window : RecipientLedger → SingleLedger
recipient_window r = record { total = r.total; entries = r.entries }

abbrev pub call_window : Ledger → ProtocolCallLedger
call_window l = record { total = l.protocol_call_total; entries = l.protocol_call_entries }

abbrev pub with_window : Address → SingleLedger → RecipientLedger
with_window a w = record { recipient = a; total = w.total; entries = w.entries }

recipient_from_state : RecipientWindowState → RecipientLedger
unfolding ledger_from_entries
recipient_from_state rws = with_window rws.recipient (ledger_from_entries rws.entries)

-- Every total is computed again, so a stored total is never trusted.
unfoldable pub from_state : WindowState → Ledger
unfolding ledger_from_entries recipient_from_state protocol_call_entries_from_state
from_state state =
    let global = ledger_from_entries state.entries in
    let calls = protocol_call_entries_from_state state.protocol_call_entries in
    record {
      total = global.total;
      entries = global.entries;
      recipients = map recipient_from_state state.recipients;
      protocol_call_entries = calls.entries;
      protocol_call_total = calls.total;
      merges = [];
    }

recipient_to_state : RecipientLedger → RecipientWindowState
recipient_to_state r = record { recipient = r.recipient; total = r.total; entries = r.entries }

unfoldable pub to_state : Ledger → WindowState
unfolding recipient_to_state
to_state l = record {
  total = l.total;
  entries = l.entries;
  recipients = map recipient_to_state l.recipients;
  protocol_call_entries = l.protocol_call_entries;
}

-- `Ledger::len`
unfoldable pub len : Ledger → ℕ
len l = length l.entries

abbrev pub prune_recipient : ℕ → ℕ → RecipientLedger → RecipientLedger
prune_recipient now window_secs r =
    with_window r.recipient (prune_entries now window_secs (recipient_window r))

-- `Ledger::prune`
unfoldable pub prune : ℕ → ℕ → Ledger → Ledger
prune now window_secs l =
    let global = prune_entries now window_secs (global_window l) in
    let calls = prune_protocol_call_entries now window_secs (call_window l) in
    record l {
      total = global.total;
      entries = global.entries;
      recipients = map (prune_recipient now window_secs) l.recipients;
      protocol_call_entries = calls.entries;
      protocol_call_total = calls.total;
    }

abbrev pub record_merge : WindowMergeKind → Merge → List WindowMerge → List WindowMerge
record_merge kind none merges = merges
record_merge kind (some (ts, value)) merges =
    merges ++ record { kind = kind; merged_ts = ts; merged_value = value } ∷ []

-- `Ledger::admit`
unfoldable pub admit : ℕ → ℤ → Ledger → Ledger
admit now amount l =
    let (w, merge) = admit_to_ledger now amount (global_window l) in
    record l {
      total = w.total;
      entries = w.entries;
      merges = record_merge global_spend merge l.merges;
    }

abbrev pub total_in : Address → List RecipientLedger → ℤ
total_in a [] = pos 0
total_in a (r ∷ rs) = if addr_eq r.recipient a then r.total else total_in a rs

-- `Ledger::recipient_total`
unfoldable pub recipient_total : Address → Ledger → ℤ
recipient_total a l = total_in a l.recipients

-- The loop of `admit_for_recipient`, and the fresh window behind it.
unfoldable pub admit_in : ℕ → Address → ℤ → List RecipientLedger → List RecipientLedger × Merge
admit_in now a amount [] =
    let (w, merge) = admit_to_ledger now amount (record { total = pos 0; entries = [] }) in
    (with_window a w ∷ [], merge)
admit_in now a amount (r ∷ rs) =
    let (w, merge) = admit_to_ledger now amount (recipient_window r) in
    let (rest, rest_merge) = admit_in now a amount rs in
    if addr_eq r.recipient a
    then (with_window r.recipient w ∷ rs, merge)
    else (r ∷ rest, rest_merge)

-- `Ledger::admit_for_recipient`
unfoldable pub admit_for_recipient : ℕ → Address → ℤ → Ledger → Ledger
unfolding admit_in
admit_for_recipient now a amount l =
    let (rs, merge) = admit_in now a amount l.recipients in
    record l { recipients = rs; merges = record_merge recipient_spend merge l.merges }

abbrev pub widen : CallMerge → Merge
widen none = none
widen (some (ts, count)) = some (ts, pos count)

-- `Ledger::admit_protocol_call`
unfoldable pub admit_protocol_call : ℕ → Ledger → Ledger
admit_protocol_call now l =
    let (w, merge) = admit_to_protocol_call_ledger now (call_window l) in
    record l {
      protocol_call_entries = w.entries;
      protocol_call_total = w.total;
      merges = record_merge protocol_calls (widen merge) l.merges;
    }
