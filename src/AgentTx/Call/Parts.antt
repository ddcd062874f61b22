-- ===== src/AgentTx/Call/Parts.antt =====
-- The two halves of an amount make it up again, and nonces do not collide.
use Prim.Native.Nat.{◌^◌}
use stellar_agent_guard_cont.Common.{ℕ, suc, ◌+◌, ◌-◌, ◌*◌, ◌<◌, ℤ, pos, negsuc, ◌≡◌, arith, ap}
use stellar_agent_guard_cont.AgentTx.Call.{low_half, high_half, auth_nonce}

-- The number that the halves of an `i128` stand for: `hi * 2^64 + lo`.
abbrev pub joined : ℤ → ℕ → ℤ
joined (pos h) lo = pos (h * 2 ^ 64 + lo)
joined (negsuc h) lo = negsuc (suc h * 2 ^ 64 - 1 - lo)

pub joined-halves : (z : ℤ) → joined (high_half z) (low_half z) ≡ z
joined-halves (pos n) = ap pos (omega arith)
joined-halves (negsuc n) = ap negsuc (omega arith)

-- Nonces of two ledgers differ, and in one ledger they differ with the entropy: a nonce determines the
-- sequence of the ledger and the entropy, both of 32 bits.
pub auth_nonce_injective :
    (l l' e e' : ℕ)
    → l < 2 ^ 32
    → l' < 2 ^ 32
    → e < 2 ^ 32
    → e' < 2 ^ 32
    → auth_nonce l e ≡ auth_nonce l' e'
    → (l ≡ l') × (e ≡ e')
unfolding auth_nonce
auth_nonce_injective l l' e e' hl hl' he he' same = ground arith
