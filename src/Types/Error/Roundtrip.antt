-- ===== src/Types/Error/Roundtrip.antt =====
-- Reasons and errors correspond one to one.
use stellar_agent_guard_cont.Common.{◌≡◌, ◌↔◌, refl, sym, ap, ◌∙◌, some, List, [], ◌∷◌, find, arith}
use stellar_agent_guard_cont.Types.Policy.{Symbol, sym_eq}
use stellar_agent_guard_cont.Types.Error.{
  Error, unauthorized, reason, to_block_reason, all_errors, from_block_reason, error_code,
}
use text.Mathlib.TextEquality.{eq_iff}

found :
    (s : Symbol) (es : List Error) (e : Error)
    → find (λ err. sym_eq s (reason err)) es ≡ some e
    → reason e ≡ s
found s [] e h = cc
found s (x ∷ xs) e h = ground (arith, eq_iff s (reason x), found s xs e)

own_reason : (e : Error) → from_block_reason (reason e) ≡ some e
unfolding from_block_reason reason
own_reason unauthorized = refl
own_reason _ = refl

-- A symbol is read as an error exactly when it is that error's reason.
pub from_block_reason_iff :
    (s : Symbol) (e : Error) → (from_block_reason s ≡ some e) ↔ (to_block_reason e ≡ s)
unfolding to_block_reason
from_block_reason_iff s e = (
  λ r. unfold from_block_reason in found s all_errors e r,
  λ r. ap from_block_reason (sym r) ∙ own_reason e,
)

-- Two errors with one code are the same error.
pub code_injective : (a b : Error) → error_code a ≡ error_code b → a ≡ b
code_injective unauthorized b h = ground arith
code_injective _ b h = ground arith
