-- ===== src/AgentTx/Outcome/Post.antt =====
-- When a request has a result.
use stellar_agent_guard_cont.Common.{
  ℕ, ◌≤◌, ◌<◌, ◌≡◌, refl, ◌↔◌, Option, none, some, List, arith, Option-cases, inl, inr,
}
use stellar_agent_guard_cont.AgentTx.Text.{ok}
use stellar_agent_guard_cont.AgentTx.Json.{Json, get}
use stellar_agent_guard_cont.AgentTx.Outcome.{
  Answer, no_response, broken_transport, response, stalled, unreadable, body, post, without_error,
  classified,
}

-- An answer with a result: a success status, and a JSON body with a field `result` and no field `error`.
abbrev pub HasResult : (List ℕ → Option Json) → Answer → Json → Type 0
HasResult parse_json answer v =
    (status : ℕ) × (text : List ℕ) × (json : Json) × (answer ≡ response status (body text))
    × (parse_json text ≡ some json)
    × (200 ≤ status)
    × (status < 300)
    × (get json "error" ≡ none)
    × (get json "result" ≡ some v)

module _ (parse_json : List ℕ → Option Json) (v : Json) where
  module _ (status : ℕ) (text : List ℕ) where
    without_error-HasResult :
        (json : Json) (o : Option Json)
        → parse_json text ≡ some json
        → get json "error" ≡ o
        → without_error status json o ≡ ok v
        → HasResult parse_json (response status (body text)) v
    without_error-HasResult json (some e) p g h = absurd (cc h)
    without_error-HasResult json none p g h = elim (Option-cases (get json "result")) [
      | inl missing ↦ absurd (ground (arith, missing))
      | inr (r, found) ↦ (
        status,
        text,
        json,
        refl,
        p,
        ground (arith, found),
        ground (arith, found),
        g,
        ground (arith, found),
      )
    ]

    classified-HasResult :
        (o : Option Json)
        → parse_json text ≡ o
        → classified status o ≡ ok v
        → HasResult parse_json (response status (body text)) v
    classified-HasResult none p h = absurd (cc h)
    classified-HasResult (some json) p h = without_error-HasResult json (get json "error") p refl h

  post-HasResult : (answer : Answer) → post parse_json answer ≡ ok v → HasResult parse_json answer v
  unfolding post
  post-HasResult no_response h = absurd (cc h)
  post-HasResult broken_transport h = absurd (cc h)
  post-HasResult (response status stalled) h = absurd (cc h)
  post-HasResult (response status unreadable) h = absurd (cc h)
  post-HasResult (response status (body text)) h =
      classified-HasResult status text (parse_json text) refl h

  HasResult-post : (answer : Answer) → HasResult parse_json answer v → post parse_json answer ≡ ok v
  unfolding post
  HasResult-post answer (status, text, json, is, p, lo, hi, e, r) =
      rw is (rw p (rw e (ground (arith, r))))

  -- A request has a result exactly where a response came with a success status and a JSON body that has
  -- a result and no error; whatever else happens is an error of the RPC.
  pub post_iff : (answer : Answer) → (post parse_json answer ≡ ok v) ↔ HasResult parse_json answer v
  post_iff answer = (post-HasResult answer, HasResult-post answer)
