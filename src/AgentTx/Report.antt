-- ===== src/AgentTx/Report.antt =====
-- The verdict of a simulation in tools/agent-tx/src/main.rs: the report that `--json` prints, the reason
-- behind a rejection, and whether the guard's policy was behind it.
pub mod Reasons
pub mod Verdicts
use Prim.Native.String.{String}
use stellar_agent_guard_cont.Common.{
  ℕ, ◌+◌, Bool, true, false, not, ◌&&◌, ◌||◌, Option, none, some, List, [], ◌∷◌, map, any, all, leb,
  ◌==◌, get_elem?, last?, if◌then◌else◌,
}
use stellar_agent_guard_cont.Types.Policy.{Address, addr_eq}
use stellar_agent_guard_cont.AgentTx.Text.{codes, text_eq, after_last}
use stellar_agent_guard_cont.AgentTx.Network.{Network, name}
use stellar_agent_guard_cont.AgentTx.Json.{
  Json, text, null, get, at_key, as_str, as_array, is_null, first_some, is_digit,
}

pub data Verdict : Type 0 where
  allowed blocked failed : Verdict

pub record RunReport : Type 0 where
  pub outcome : Verdict
  pub reason : Option (List ℕ)
  pub tx_hash : Option (List ℕ)
  pub ledger : Option ℕ
  pub network : Option String

abbrev pub new_report : Verdict → Option (List ℕ) → RunReport
new_report outcome reason = record {
  outcome = outcome;
  reason = reason;
  tx_hash = none;
  ledger = none;
  network = none;
}

abbrev pub allowed_report : RunReport
allowed_report = new_report allowed none

abbrev pub blocked_report : List ℕ → RunReport
blocked_report reason = new_report blocked (some reason)

abbrev pub failed_report : String → RunReport
failed_report reason = new_report failed (some (codes reason))

abbrev pub with_tx_hash : RunReport → List ℕ → RunReport
with_tx_hash report hash = record report { tx_hash = some hash }

abbrev network_name : Option Network → Option String
network_name none = none
network_name (some n) = some (name n)

abbrev with_ledger : RunReport → Option ℕ → RunReport
with_ledger report none = report
with_ledger report (some ledger) = record report { ledger = some ledger }

-- `Reporter::complete`
abbrev pub complete : Option Network → RunReport → Option ℕ → RunReport
complete network report ledger =
    with_ledger (record report { network = network_name network }) ledger

-- `char::is_whitespace`
abbrev pub is_whitespace : ℕ → Bool
is_whitespace c =
    (leb 9 c && leb c 13)
    || (c == 32
        || (c == 133
            || (c == 160
                || (c == 5760
                    || ((leb 8192 c && leb c 8202)
                        || (c == 8232
                            || (c == 8233 || (c == 8239 || (c == 8287 || c == 12288)))))))))

abbrev pub trim_start : List ℕ → List ℕ
trim_start [] = []
trim_start (c ∷ cs) = let rest = trim_start cs in if is_whitespace c then rest else c ∷ cs

-- `trim_end`: a blank is dropped if only blanks follow.
abbrev keep_char : ℕ → List ℕ → List ℕ
keep_char c [] = if is_whitespace c then [] else c ∷ []
keep_char c (d ∷ rest) = c ∷ d ∷ rest

abbrev pub trim_end : List ℕ → List ℕ
trim_end [] = []
trim_end (c ∷ cs) = keep_char c (trim_end cs)

abbrev pub trim : List ℕ → List ℕ
trim s = trim_end (trim_start s)

abbrev pub is_reason_char : ℕ → Bool
is_reason_char c = (leb 97 c && leb c 122) || (is_digit c || c == b'_')

abbrev pub nonempty : List ℕ → Bool
nonempty [] = false
nonempty (c ∷ cs) = true

unfoldable pub reason_symbol : List ℕ → Option (List ℕ)
reason_symbol token =
    let trimmed = trim token in
    if nonempty trimmed && all is_reason_char trimmed then some trimmed else none

-- What the code reads of a decoded event: the contract, and the topics, `none` for one that is no
-- symbol.
pub record DiagnosticEvent : Type 0 where
  pub contract_id : Option Address
  pub topics : List (Option (List ℕ))

abbrev topic_is : Option (Option (List ℕ)) → String → Bool
topic_is (some (some symbol)) expected = text_eq symbol (codes expected)
topic_is _ expected = false

abbrev pub symbol_reason : Option (Option (List ℕ)) → Option (List ℕ)
symbol_reason (some (some symbol)) = reason_symbol symbol
symbol_reason _ = none

-- The reason of the guard's own rejection, if the event is one.
abbrev pub block_reason : DiagnosticEvent → Option (List ℕ)
block_reason event =
    if topic_is (get_elem? event.topics 0) "event_auth_checked"
      && topic_is (get_elem? event.topics 1) "blocked"
    then symbol_reason (last? event.topics)
    else none

-- `event["xdr"].as_str().first_some(|| event.as_str())`
abbrev pub event_text : Json → Option (List ℕ)
event_text event = first_some (as_str (at_key event "xdr")) (as_str event)

abbrev pub text_reason : Option (List ℕ) → Option (List ℕ)
text_reason none = none
text_reason (some s) = reason_symbol s

abbrev message_tail : Option (List ℕ) → Option (List ℕ)
message_tail none = none
message_tail (some message) = after_last (codes "auth_checked:") message

abbrev or_unknown : Option (List ℕ) → List ℕ
or_unknown none = codes "unknown"
or_unknown (some reason) = reason

-- An error message: its text, its field `message`, or the whole error as it is written.
abbrev pub message_of : (Json → List ℕ) → Option Json → Option (List ℕ)
message_of shown none = none
message_of shown (some null) = none
message_of shown (some (text message)) = some message
message_of shown (some error) = some (or_shown (as_str (at_key error "message")))
  where
    or_shown : Option (List ℕ) → List ℕ
    or_shown none = shown error
    or_shown (some message) = message

unfoldable pub simulation_events : Json → Option (List Json)
simulation_events simulation =
    first_some (as_array (at_key simulation "events"))
      (as_array (at_key (at_key (at_key simulation "error") "data") "events"))

-- `to_string` of a value is the library's.
unfoldable pub simulation_error_message : (Json → List ℕ) → Json → Option (List ℕ)
simulation_error_message shown simulation = message_of shown (get simulation "error")

-- `from_xdr_base64` of an event is the library's.
module _ (decode : List ℕ → Option DiagnosticEvent) where
  abbrev pub decoded : Option (List ℕ) → Option DiagnosticEvent
  decoded none = none
  decoded (some encoded) = decode encoded

  abbrev pub decoded_reason : Option DiagnosticEvent → Option (List ℕ)
  decoded_reason none = none
  decoded_reason (some event) = block_reason event

  -- The loop over the events.
  unfoldable pub first_reason : List Json → Option (List ℕ)
  first_reason [] = none
  first_reason (event ∷ events) =
      first_some (decoded_reason (decoded (event_text event))) (first_reason events)

  abbrev events_reason : Option (List Json) → Option (List ℕ)
  events_reason none = none
  events_reason (some events) = first_reason events

  unfoldable pub sim_reason : Json → List ℕ
  sim_reason error = or_unknown (
      first_some (events_reason (as_array (at_key (at_key error "data") "events"))) (
        first_some (text_reason (message_tail (as_str (at_key error "message"))))
          (text_reason (as_str (at_key error "code")))))

  abbrev error_report : Option Json → RunReport
  error_report none = allowed_report
  error_report (some error) = blocked_report (sim_reason error)

  unfoldable pub simulation_report : Json → RunReport
  simulation_report simulation = error_report (get simulation "error")

  abbrev has_topic : List (Option (List ℕ)) → String → Bool
  has_topic topics expected = any (λ (t : Option (List ℕ)). topic_is (some t) expected) topics

  abbrev id_is : Option Address → Address → Bool
  id_is none guard = false
  id_is (some id) guard = addr_eq id guard

  abbrev pub is_block_of : Address → Option DiagnosticEvent → Bool
  is_block_of guard none = false
  is_block_of guard (some event) =
      id_is event.contract_id guard
      && (has_topic event.topics "event_auth_checked" && has_topic event.topics "blocked")

  abbrev any_block : Address → Option (List Json) → Bool
  any_block guard none = false
  any_block guard (some events) =
      any (λ (event : Json). is_block_of guard (decoded (event_text event))) events

  -- The guard is a contract.
  unfoldable pub is_guard_auth_checked_block : Json → Address → Bool
  unfolding simulation_events
  is_guard_auth_checked_block simulation guard = any_block guard (simulation_events simulation)
