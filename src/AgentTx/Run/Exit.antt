-- ===== src/AgentTx/Run/Exit.antt =====
-- What an exit code of 0 of a submitting command means.
use stellar_agent_guard_cont.Common.{ℕ, ◌≡◌, ◌⊎◌, true, false, Option, List, []}
use stellar_agent_guard_cont.AgentTx.Json.{Json}
use stellar_agent_guard_cont.AgentTx.Call.{Call}
use stellar_agent_guard_cont.AgentTx.Outcome.{
  RunOutcome, exit_code, simulation_blocked, transaction_success,
}
use stellar_agent_guard_cont.AgentTx.Envelope.{Envelope}
use stellar_agent_guard_cont.AgentTx.Run.{Args, Ran, Ended, outcome}

-- An end with the code 0, no block expected, is a success.
abbrev OnlySuccess : Ended → Type 0
OnlySuccess ended =
    (o : RunOutcome)
    → ended ≡ outcome o
    → exit_code o false ≡ 0
    → (hash : List ℕ) × (status : List ℕ) × (o ≡ transaction_success hash status)

abbrev pub ZeroMeans : Args → Ran → Type 0
ZeroMeans args r =
    (o : RunOutcome)
    → r.ended ≡ outcome o
    → exit_code o args.expect_blocked ≡ 0
    → ((args.expect_blocked ≡ false)
        × ((hash : List ℕ) × (status : List ℕ) × (o ≡ transaction_success hash status)))
      ⊎ ((args.expect_blocked ≡ true)
          × (r.sent ≡ [])
          × ((code : Option (List ℕ)) × (message : Option (List ℕ)) × (events : Option (List Json))
              × (o ≡ simulation_blocked true code message events)))
