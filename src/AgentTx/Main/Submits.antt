-- ===== src/AgentTx/Main/Submits.antt =====
-- What an invocation of tools/agent-tx submits.
use Prim.Native.String.{String}
use text.Mathlib.TextEquality.{eq_iff}
use stellar_agent_guard_cont.Common.{
  ℕ, ℤ, ◌≡◌, refl, Bool, true, false, not, Option, some, List, [], ◌∷◌, All, All-mono, any,
  if◌then◌else◌,
}
use stellar_agent_guard_cont.Types.Policy.{Address, sym_eq}
use stellar_agent_guard_cont.AgentTx.Text.{Result, ok, err}
use stellar_agent_guard_cont.AgentTx.Call.{Call}
use stellar_agent_guard_cont.AgentTx.Envelope.{Envelope}
use stellar_agent_guard_cont.AgentTx.Run.{Rpc, Libraries}
use stellar_agent_guard_cont.AgentTx.Run.Submits.{IsAdmitted, run-IsAdmitted}
use stellar_agent_guard_cont.AgentTx.Request.{World, Request, RequestError, parse_request}
use stellar_agent_guard_cont.AgentTx.Main.{
  Finished, is_help, is_subcommand, args_of, submitting, check_with, preflight_with, transfer_with,
  transfer_from_with, dispatch, requested, main, sent_of,
}

-- The call that a subcommand names, with the inputs of its request.
abbrev pub IsCallOf : String → Request → Call → Type 0
IsCallOf cmd r (Call.transfer token to amount) =
    (cmd ≡ "transfer") × (r.token ≡ some token) × (r.to ≡ some to) × (r.amount ≡ some amount)
IsCallOf cmd r (Call.transfer_from token from to amount) =
    (cmd ≡ "transfer-from")
    × (r.token ≡ some token)
    × (r.from ≡ some from)
    × (r.to ≡ some to)
    × (r.amount ≡ some amount)
IsCallOf cmd r Call.heartbeat = cmd ≡ "heartbeat"

if_cases :
    (Q : Finished → Type 0) (b : Bool) (x y : Finished)
    → (b ≡ true → Q x)
    → (b ≡ false → Q y)
    → Q (if b then x else y)
if_cases Q true x y f g = f refl
if_cases Q false x y f g = g refl

module _ (w : World) (t : Libraries) (rpc_of : String → ℕ → Rpc) (entropy : ℕ) where
  -- A submission for a request: of the call that it names, and admitted.
  abbrev pub IsAskedFor : String → Request → Envelope → Type 0
  IsAskedFor cmd r env =
      (call : Call) × IsCallOf cmd r call × IsAdmitted t call (args_of rpc_of r) entropy env

  module _ (cmd : String) (r : Request) where
    abbrev Asked : Finished → Type 0
    Asked f = All (IsAskedFor cmd r) (sent_of f)

    submitting-Asked :
        (call : Call) → IsCallOf cmd r call → Asked (submitting w t rpc_of entropy r call)
    submitting-Asked call c =
        All-mono (IsAdmitted t call (args_of rpc_of r) entropy) (IsAskedFor cmd r)
          (λ env a. (call, c, a)) _ (run-IsAdmitted t call (args_of rpc_of r) entropy)

    check_with-Asked :
        (a b : Option Address) (n : Option ℤ) → Asked (check_with w t rpc_of entropy r a b n)
    check_with-Asked (some a) (some b) (some n) = tt
    check_with-Asked a b n = tt

    preflight_with-Asked :
        (a b : Option Address) (n : Option ℤ) → Asked (preflight_with w t rpc_of entropy r a b n)
    preflight_with-Asked (some a) (some b) (some n) = tt
    preflight_with-Asked a b n = tt

    transfer_with-Asked :
        (a b : Option Address) (n : Option ℤ)
        → cmd ≡ "transfer"
        → r.token ≡ a
        → r.to ≡ b
        → r.amount ≡ n
        → Asked (transfer_with w t rpc_of entropy r a b n)
    transfer_with-Asked (some a) (some b) (some n) e ea eb en =
        submitting-Asked (Call.transfer a b n) (e, ea, eb, en)
    transfer_with-Asked a b n e ea eb en = tt

    transfer_from_with-Asked :
        (a o b : Option Address) (n : Option ℤ)
        → cmd ≡ "transfer-from"
        → r.token ≡ a
        → r.from ≡ o
        → r.to ≡ b
        → r.amount ≡ n
        → Asked (transfer_from_with w t rpc_of entropy r a o b n)
    transfer_from_with-Asked (some a) (some o) (some b) (some n) e ea eo eb en =
        submitting-Asked (Call.transfer_from a o b n) (e, ea, eo, eb, en)
    transfer_from_with-Asked a o b n e ea eo eb en = tt

    dispatch-Asked : Asked (dispatch w t rpc_of entropy cmd r)
    unfolding dispatch
    dispatch-Asked =
        if_cases Asked (sym_eq cmd "status") _ _ (λ e. tt)
          (λ e.
            if_cases Asked (sym_eq cmd "policy") _ _ (λ e. tt)
              (λ e.
                if_cases Asked (sym_eq cmd "check") _ _
                  (λ e. check_with-Asked r.token r.to r.amount)
                  (λ e.
                    if_cases Asked (sym_eq cmd "preflight") _ _
                      (λ e. preflight_with-Asked r.token r.to r.amount)
                      (λ e.
                        if_cases Asked (sym_eq cmd "transfer") _ _
                          (λ e.
                            transfer_with-Asked r.token r.to r.amount ((eq_iff cmd "transfer").0 e)
                              refl refl refl)
                          (λ e.
                            if_cases Asked (sym_eq cmd "transfer-from") _ _
                              (λ e.
                                transfer_from_with-Asked r.token r.from r.to r.amount
                                  ((eq_iff cmd "transfer-from").0 e) refl refl refl refl)
                              (λ e.
                                if_cases Asked (sym_eq cmd "heartbeat") _ _
                                  (λ e.
                                    submitting-Asked Call.heartbeat ((eq_iff cmd "heartbeat").0 e))
                                  (λ e. tt)))))))

  -- How the arguments came to a submission.
  abbrev pub IsFromArguments : List String → Envelope → Type 0
  IsFromArguments argv env =
      (cmd : String) × (rest : List String) × (r : Request) × (argv ≡ cmd ∷ rest)
      × (parse_request w cmd rest ≡ ok r)
      × IsAskedFor cmd r env

  requested-IsFromArguments :
      (cmd : String) (rest : List String) (o : Result RequestError Request)
      → parse_request w cmd rest ≡ o
      → All (IsFromArguments (cmd ∷ rest)) (sent_of (requested w t rpc_of entropy cmd o))
  requested-IsFromArguments cmd rest (err e) parsed = tt
  requested-IsFromArguments cmd rest (ok r) parsed =
      All-mono (IsAskedFor cmd r) (IsFromArguments (cmd ∷ rest))
        (λ env a. (cmd, rest, r, refl, parsed, a)) _ (dispatch-Asked cmd r)

  -- Whatever the tool submits, its arguments ask for: they name a submitting command, their request was
  -- accepted, the call has the token, owner, recipient and amount of that request, and a simulation of
  -- this call admitted the submission.
  pub main-IsFromArguments :
      (argv : List String) → All (IsFromArguments argv) (sent_of (main w t rpc_of entropy argv))
  unfolding main
  main-IsFromArguments [] = tt
  main-IsFromArguments (cmd ∷ rest) =
      let Q : Finished → Type 0 = λ f. All (IsFromArguments (cmd ∷ rest)) (sent_of f) in
      if_cases Q (is_help cmd) _ _ (λ e. tt)
        (λ e.
          if_cases Q (any is_help rest) _ _ (λ e. tt)
            (λ e.
              if_cases Q (sym_eq cmd "guards") _ _ (λ e. tt)
                (λ e.
                  if_cases Q (not (is_subcommand cmd)) _ _ (λ e. tt)
                    (λ e. requested-IsFromArguments cmd rest (parse_request w cmd rest) refl))))
