-- ===== src/AgentTx/Report/Verdicts.antt =====
-- The report of a simulation against the message by which the tool decides to go on.
use stellar_agent_guard_cont.Common.{ℕ, ◌≡◌, Option, none, some, List}
use stellar_agent_guard_cont.AgentTx.Text.{codes}
use stellar_agent_guard_cont.AgentTx.Json.{Json, null, text}
use stellar_agent_guard_cont.AgentTx.Report.{
  DiagnosticEvent, RunReport, allowed_report, blocked_report, sim_reason,
}

module _ (decode : List ℕ → Option DiagnosticEvent) (shown : Json → List ℕ) where
  -- A report and a message, by the error of the simulation.
  abbrev pub Answers : Option Json → RunReport → Option (List ℕ) → Type 0
  Answers none report message = (report ≡ allowed_report) × (message ≡ none)
  Answers (some null) report message =
      (report ≡ blocked_report (codes "unknown")) × (message ≡ none)
  Answers (some (text m)) report message =
      (report ≡ blocked_report (codes "unknown")) × (message ≡ some m)
  Answers (some error) report message =
      (report ≡ blocked_report (sim_reason decode error)) × ((m : List ℕ) × (message ≡ some m))
