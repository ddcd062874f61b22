-- ===== src/AgentTx/Report/Reasons.antt =====
-- The reason that the tool reports is the one that the contract gave.
use stellar_agent_guard_cont.Common.{
  ℕ, ◌≡◌, refl, ap, ◌∙◌, Option, none, some, List, [], ◌∷◌, ◌++◌, arith,
}
use stellar_agent_guard_cont.Types.Error.{Error, reason}
use stellar_agent_guard_cont.AgentTx.Text.{codes}
use stellar_agent_guard_cont.AgentTx.Json.{Json, at_key, as_array, first_some}
use stellar_agent_guard_cont.AgentTx.Report.{
  DiagnosticEvent, event_text, block_reason, decoded, decoded_reason, reason_symbol, first_reason,
  sim_reason,
}

-- The symbols of the contract pass the tool's test.
reason_symbol-reason : (e : Error) → reason_symbol (codes (reason e)) ≡ some (codes (reason e))
unfolding reason_symbol reason
reason_symbol-reason Error.unauthorized = refl
reason_symbol-reason Error.already_initialized = refl
reason_symbol-reason Error.not_initialized = refl
reason_symbol-reason Error.invalid_config = refl
reason_symbol-reason Error.invalid_amount = refl
reason_symbol-reason Error.no_pending_admin = refl
reason_symbol-reason Error.admin_frozen = refl
reason_symbol-reason Error.heartbeat_expired = refl
reason_symbol-reason Error.no_policy = refl
reason_symbol-reason Error.paused = refl
reason_symbol-reason Error.outside_active_window = refl
reason_symbol-reason Error.asset_not_allowed = refl
reason_symbol-reason Error.recipient_not_allowed = refl
reason_symbol-reason Error.per_tx_cap_exceeded = refl
reason_symbol-reason Error.window_cap_exceeded = refl
reason_symbol-reason Error.protocol_not_allowed = refl
reason_symbol-reason Error.function_not_allowed = refl
reason_symbol-reason Error.asset_fn_not_allowed = refl
reason_symbol-reason Error.unknown_contract = refl
reason_symbol-reason Error.self_function_not_allowed = refl
reason_symbol-reason Error.create_contract_not_allowed = refl
reason_symbol-reason Error.recipient_blocked = refl
reason_symbol-reason Error.protocol_call_rate_exceeded = refl
reason_symbol-reason Error.decision_invariant_violation = refl
reason_symbol-reason Error.too_many_auth_contexts = refl

block_reason-reason :
    (d : DiagnosticEvent) (e : Error)
    → d.topics
      ≡ some (codes "event_auth_checked") ∷ some (codes "blocked") ∷ some (codes (reason e)) ∷ []
    → block_reason d ≡ some (codes (reason e))
block_reason-reason d e topics = rw topics (reason_symbol-reason e)

module _ (decode : List ℕ → Option DiagnosticEvent) where
  first_reason-append :
      (before after : List Json)
      → first_reason decode before ≡ none
      → first_reason decode (before ++ after) ≡ first_reason decode after
  unfolding first_reason
  first_reason-append [] after h = refl
  first_reason-append (e ∷ before) after h = ground (arith, first_reason-append before after)

  first_reason_held :
      (event : Json) (after : List Json) (encoded : List ℕ) (d : DiagnosticEvent) (r : List ℕ)
      → event_text event ≡ some encoded
      → decode encoded ≡ some d
      → block_reason d ≡ some r
      → first_reason decode (event ∷ after) ≡ some r
  unfolding first_reason
  first_reason_held event after encoded d r held is_event blocks =
      ap
        (λ (o : Option (List ℕ)).
          first_some (decoded_reason decode (decoded decode o)) (first_reason decode after))
        held
      ∙ (ap
            (λ (o : Option DiagnosticEvent).
              first_some (decoded_reason decode o) (first_reason decode after))
            is_event
          ∙ ap (λ (o : Option (List ℕ)). first_some o (first_reason decode after)) blocks)

  -- Among the events of an error, the first that is a rejection by the guard gives the reason of the
  -- report: it is the symbol of the error with which the contract rejected the call.
  pub sim_reason-reason :
      (error event : Json) (before after : List Json) (encoded : List ℕ) (d : DiagnosticEvent)
      (e : Error)
      → as_array (at_key (at_key error "data") "events") ≡ some (before ++ (event ∷ after))
      → first_reason decode before ≡ none
      → event_text event ≡ some encoded
      → decode encoded ≡ some d
      → d.topics
        ≡ some (codes "event_auth_checked") ∷ some (codes "blocked") ∷ some (codes (reason e)) ∷ []
      → sim_reason decode error ≡ codes (reason e)
  unfolding sim_reason
  sim_reason-reason error event before after encoded d e events quiet held is_event topics =
      rw events (
        rw
          (
            first_reason-append before (event ∷ after) quiet,
            first_reason_held event after encoded d (codes (reason e)) held is_event
                (block_reason-reason d e topics),
          )
          refl)
