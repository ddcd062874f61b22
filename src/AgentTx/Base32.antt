-- ===== src/AgentTx/Base32.antt =====
-- The base-32 codec of tools/agent-tx/src/base32.rs, on bytes and on the codes of characters.
pub mod Roundtrip
use Prim.Native.Nat.{◌%◌, ◌^◌}
use stellar_agent_guard_cont.Common.{
  ℕ, zero, suc, ◌+◌, ◌-◌, ◌*◌, ◌/◌, Option, none, some, List, [], ◌∷◌, ◌++◌, get_or, ltb, leb, ◌==◌,
  if◌then◌else◌,
}

-- `B32`: the codes of `A` to `Z` and of `2` to `7`.
abbrev pub b32 : List ℕ
b32 =
    65 ∷ 66 ∷ 67 ∷ 68 ∷ 69 ∷ 70 ∷ 71 ∷ 72 ∷ 73 ∷ 74 ∷ 75 ∷ 76 ∷ 77 ∷ 78 ∷ 79 ∷ 80 ∷ 81 ∷ 82 ∷ 83
    ∷ 84 ∷ 85 ∷ 86 ∷ 87 ∷ 88 ∷ 89 ∷ 90 ∷ 50 ∷ 51 ∷ 52 ∷ 53 ∷ 54 ∷ 55 ∷ []

-- The code of `=`.
abbrev pub padding : ℕ
padding = 61

abbrev next_place : Option ℕ → Option ℕ
next_place none = none
next_place (some i) = some (suc i)

-- `iter().position(|&a| a == c)`
abbrev pub position : ℕ → List ℕ → Option ℕ
position c [] = none
position c (a ∷ rest) = if a == c then some 0 else next_place (position c rest)

abbrev pub char_of : ℕ → ℕ
char_of v = get_or b32 v 0

-- The inner loop of `base32_decode`: whole bytes leave the accumulator, and `bits` remain. Each round
-- takes 8 bits, so `bits` is fuel enough.
unfoldable pub flush_bytes : ℕ → ℕ → ℕ → List ℕ × ℕ
flush_bytes zero acc bits = ([], bits)
flush_bytes (suc fuel) acc bits =
    let rest = flush_bytes fuel acc (bits - 8) in
    if leb 8 bits then (acc / 2 ^ (bits - 8) % 256 ∷ rest.0, rest.1) else ([], bits)

abbrev pub prepend : List ℕ → Option (List ℕ) → Option (List ℕ)
prepend bytes none = none
prepend bytes (some rest) = some (bytes ++ rest)

-- The loop of `base32_decode`. The low bits of a shifted number are 0, so `|` is a sum there.
unfoldable pub decode_from : ℕ → ℕ → List ℕ → Option (List ℕ)
unfolding flush_bytes
decode_from acc bits [] = some []
decode_from acc bits (c ∷ cs) = if c == padding then some [] else elim (position c b32) [
  | none ↦ none
  | some v ↦
      let grown = acc * 32 + v in
      let (bytes, left) = flush_bytes (bits + 5) grown (bits + 5) in
      prepend bytes (decode_from (grown % 2 ^ left) left cs)
]

unfoldable pub base32_decode : List ℕ → Option (List ℕ)
unfolding decode_from
base32_decode input = decode_from 0 0 input

-- The inner loop of `base32_encode`, with fuel as above.
unfoldable pub flush_chars : ℕ → ℕ → ℕ → List ℕ × ℕ
flush_chars zero acc bits = ([], bits)
flush_chars (suc fuel) acc bits =
    let rest = flush_chars fuel acc (bits - 5) in
    if leb 5 bits then (char_of (acc / 2 ^ (bits - 5) % 32) ∷ rest.0, rest.1) else ([], bits)

-- The loop of `base32_encode`, and the last character, which fills up with zeros.
unfoldable pub encode_from : ℕ → ℕ → List ℕ → List ℕ
unfolding flush_chars
encode_from acc bits [] = if ltb 0 bits then char_of (acc * 2 ^ (5 - bits) % 32) ∷ [] else []
encode_from acc bits (b ∷ bs) =
    let grown = acc * 256 + b in
    let (chars, left) = flush_chars (bits + 8) grown (bits + 8) in
    chars ++ encode_from (grown % 2 ^ left) left bs

unfoldable pub base32_encode : List ℕ → List ℕ
unfolding encode_from
base32_encode bytes = encode_from 0 0 bytes
