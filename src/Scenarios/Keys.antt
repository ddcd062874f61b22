-- ===== src/Scenarios/Keys.antt =====
-- Keys of the command line tool.
use stellar_agent_guard_cont.Common.{ℕ, ◌≡◌, refl, List, [], ◌∷◌, ◌++◌, replicate}
use stellar_agent_guard_cont.AgentTx.Base32.{base32_encode}
use stellar_agent_guard_cont.AgentTx.Strkey.{strkey_encode, ver_account}

abbrev zero_key : List ℕ
zero_key = replicate 32 0

-- The account of the key of zeros is `GAAA…AWHF`.
zero_account_test :
    strkey_encode ver_account zero_key ≡ 71 ∷ replicate 51 65 ++ 65 ∷ 87 ∷ 72 ∷ 70 ∷ []
unfolding strkey_encode base32_encode
zero_account_test = refl
