-- ===== src/AgentTx/Base32/Roundtrip.antt =====
-- What is encoded in base 32 decodes to the same bytes.
use Prim.Native.Nat.{◌%◌, ◌^◌}
use stellar_agent_guard_cont.Common.{
  ℕ, zero, suc, ◌+◌, ◌*◌, ◌/◌, ◌<◌, ◌≡◌, refl, ap, ◌∙◌, inl, inr, Bool, true, false, not, ◌&&◌,
  Option, none, some, List, [], ◌∷◌, ◌++◌, All, arith, and_true, Bool-cases, ◌==◌, ==_iff,
}
use stellar_agent_guard_cont.AgentTx.Base32.{
  b32, padding, position, char_of, flush_bytes, prepend, decode_from, base32_decode, flush_chars,
  encode_from, base32_encode,
}

abbrev pub IsByte : ℕ → Type 0
IsByte b = b < 256

-- A test that holds below `n`.
abbrev pub all_below : (ℕ → Bool) → ℕ → Bool
all_below test zero = true
all_below test (suc n) = test n && all_below test n

pub all_below_lem : (test : ℕ → Bool) (n v : ℕ) → all_below test n ≡ true → v < n → test v ≡ true
all_below_lem test zero v h lt = absurd (omega arith)
all_below_lem test (suc n) v h lt =
    let (last, others) = and_true (test n) _ h in
    elim (Bool-cases (v == n)) [
      | inl here ↦ rw ((==_iff v n).0 here) last
      | inr below ↦ all_below_lem test n v others (ground arith)
    ]

abbrev is_place : Option ℕ → ℕ → Bool
is_place none v = false
is_place (some i) v = i == v

is_place_lem : (o : Option ℕ) (v : ℕ) → is_place o v ≡ true → o ≡ some v
is_place_lem none v h = absurd (ground arith)
is_place_lem (some i) v h = rw ((==_iff i v).0 h) refl

abbrev is_good : ℕ → Bool
is_good v = not (char_of v == padding) && is_place (position (char_of v) b32) v

all_good : all_below is_good 32 ≡ true
all_good = refl

char_found :
    (v : ℕ) → v < 32 → ((char_of v == padding) ≡ false) × (position (char_of v) b32 ≡ some v)
char_found v lt =
    let (other, place) =
      and_true (not (char_of v == padding)) _ (all_below_lem is_good 32 v all_good lt) in
    (ground arith, is_place_lem (position (char_of v) b32) v place)

-- Reading the character of `v`.
decode_step :
    (acc bits v : ℕ) (cs : List ℕ)
    → v < 32
    → let (bytes, left) = flush_bytes (bits + 5) (acc * 32 + v) (bits + 5) in
      decode_from acc bits (char_of v ∷ cs)
      ≡ prepend bytes (decode_from ((acc * 32 + v) % 2 ^ left) left cs)
unfolding decode_from
decode_step acc bits v cs lt = let (other, place) = char_found v lt in rw (other, place) refl

decode_end : (acc bits : ℕ) → decode_from acc bits [] ≡ some []
unfolding decode_from
decode_end acc bits = refl

-- Between two bytes the encoder holds `y` and the decoder `x`; the two together are the last byte. The
-- names tell how many bits the encoder holds.
data Phase : Type 0 where
  even : Phase
  three one four two : ℕ → ℕ → Phase

abbrev decoder : Phase → ℕ × ℕ
decoder even = (0, 0)
decoder (three x y) = (x, 5)
decoder (one x y) = (x, 7)
decoder (four x y) = (x, 4)
decoder (two x y) = (x, 6)

abbrev encoder : Phase → ℕ × ℕ
encoder even = (0, 0)
encoder (three x y) = (y, 3)
encoder (one x y) = (y, 1)
encoder (four x y) = (y, 4)
encoder (two x y) = (y, 2)

abbrev held : Phase → List ℕ
held even = []
held (three x y) = (x * 8 + y) ∷ []
held (one x y) = (x * 2 + y) ∷ []
held (four x y) = (x * 16 + y) ∷ []
held (two x y) = (x * 4 + y) ∷ []

abbrev FitsPhase : Phase → Type 0
FitsPhase even = Unit
FitsPhase (three x y) = (x < 32) × (y < 8)
FitsPhase (one x y) = (x < 128) × (y < 2)
FitsPhase (four x y) = (x < 16) × (y < 16)
FitsPhase (two x y) = (x < 64) × (y < 4)

-- Decoding from a phase on what is encoded from it gives the held byte and the rest.
abbrev Decodes : Phase → List ℕ → Type 0
Decodes p bs =
    decode_from (decoder p).0 (decoder p).1 (encode_from (encoder p).0 (encoder p).1 bs)
    ≡ some (held p ++ bs)

last_char : (p : Phase) → FitsPhase p → Decodes p []
unfolding encode_from flush_bytes flush_chars
last_char even f = decode_end 0 0
last_char (three x y) (p, q) =
    decode_step x 5 (y * 4 % 32) [] (omega arith)
    ∙ rw decode_end (ap (λ (n : ℕ). some (n ∷ [])) (omega arith))
last_char (one x y) (p, q) =
    decode_step x 7 (y * 16 % 32) [] (omega arith)
    ∙ rw decode_end (ap (λ (n : ℕ). some (n ∷ [])) (omega arith))
last_char (four x y) (p, q) =
    decode_step x 4 (y * 2 % 32) [] (omega arith)
    ∙ rw decode_end (ap (λ (n : ℕ). some (n ∷ [])) (omega arith))
last_char (two x y) (p, q) =
    decode_step x 6 (y * 8 % 32) [] (omega arith)
    ∙ rw decode_end (ap (λ (n : ℕ). some (n ∷ [])) (omega arith))

two_bytes :
    {a a' b b' : ℕ} (bs : List ℕ) → a ≡ a' → b ≡ b' → some (a ∷ b ∷ bs) ≡ some (a' ∷ b' ∷ bs)
two_bytes bs e f = cc

-- The phase after one more byte, and what it is good for.
module _ (b : ℕ) (bs : List ℕ) (byte : IsByte b)
    (rest : (p : Phase) → FitsPhase p → Decodes p bs) where
  next_even : Decodes even (b ∷ bs)
  unfolding encode_from flush_bytes flush_chars
  next_even =
      let g = 0 * 256 + b in
      let v = g / 8 % 32 in
      let kept = (0 * 32 + v) % 32 in
      decode_step 0 0 v (encode_from (g % 8) 3 bs) (omega arith)
      ∙ rw (rest (three kept (g % 8)) (omega arith, omega arith))
          (ap (λ (n : ℕ). some (n ∷ bs)) (omega arith))

  next_three : (x y : ℕ) → x < 32 → y < 8 → Decodes (three x y) (b ∷ bs)
  unfolding encode_from flush_bytes flush_chars
  next_three x y p q =
      let g = y * 256 + b in
      let v = g / 64 % 32 in
      let w = g / 2 % 32 in
      let kept = (x * 32 + v) % 4 in
      let after = (kept * 32 + w) % 128 in
      decode_step x 5 v (char_of w ∷ encode_from (g % 2) 1 bs) (omega arith)
      ∙ rw
          (
            decode_step kept 2 w (encode_from (g % 2) 1 bs) (omega arith),
            rest (one after (g % 2)) (omega arith, omega arith),
          )
          (two_bytes bs (omega arith) (omega arith))

  next_one : (x y : ℕ) → x < 128 → y < 2 → Decodes (one x y) (b ∷ bs)
  unfolding encode_from flush_bytes flush_chars
  next_one x y p q =
      let g = y * 256 + b in
      let v = g / 16 % 32 in
      let kept = (x * 32 + v) % 16 in
      decode_step x 7 v (encode_from (g % 16) 4 bs) (omega arith)
      ∙ rw (rest (four kept (g % 16)) (omega arith, omega arith))
          (two_bytes bs (omega arith) (omega arith))

  next_four : (x y : ℕ) → x < 16 → y < 16 → Decodes (four x y) (b ∷ bs)
  unfolding encode_from flush_bytes flush_chars
  next_four x y p q =
      let g = y * 256 + b in
      let v = g / 128 % 32 in
      let w = g / 4 % 32 in
      let kept = (x * 32 + v) % 2 in
      let after = (kept * 32 + w) % 64 in
      decode_step x 4 v (char_of w ∷ encode_from (g % 4) 2 bs) (omega arith)
      ∙ rw
          (
            decode_step kept 1 w (encode_from (g % 4) 2 bs) (omega arith),
            rest (two after (g % 4)) (omega arith, omega arith),
          )
          (two_bytes bs (omega arith) (omega arith))

  next_two : (x y : ℕ) → x < 64 → y < 4 → Decodes (two x y) (b ∷ bs)
  unfolding encode_from flush_bytes flush_chars
  next_two x y p q =
      let g = y * 256 + b in
      let v = g / 32 % 32 in
      let w = g / 1 % 32 in
      let kept = (x * 32 + v) % 8 in
      let none_read : (kept * 32 + w) % 1 ≡ 0 = omega arith in
      let none_held : g % 1 ≡ 0 = omega arith in
      decode_step x 6 v (char_of w ∷ encode_from (g % 1) 0 bs) (omega arith)
      ∙ rw
          (
            decode_step kept 3 w (encode_from (g % 1) 0 bs) (omega arith),
            none_read,
            none_held,
            rest even tt,
          )
          (two_bytes bs (omega arith) (omega arith))

Decodes-phase : (p : Phase) (bs : List ℕ) → FitsPhase p → All IsByte bs → Decodes p bs
Decodes-phase p [] f bytes = last_char p f
Decodes-phase even (b ∷ bs) f (byte, bytes) =
    next_even b bs byte (λ p g. Decodes-phase p bs g bytes)
Decodes-phase (three x y) (b ∷ bs) (f, f') (byte, bytes) =
    next_three b bs byte (λ p g. Decodes-phase p bs g bytes) x y f f'
Decodes-phase (one x y) (b ∷ bs) (f, f') (byte, bytes) =
    next_one b bs byte (λ p g. Decodes-phase p bs g bytes) x y f f'
Decodes-phase (four x y) (b ∷ bs) (f, f') (byte, bytes) =
    next_four b bs byte (λ p g. Decodes-phase p bs g bytes) x y f f'
Decodes-phase (two x y) (b ∷ bs) (f, f') (byte, bytes) =
    next_two b bs byte (λ p g. Decodes-phase p bs g bytes) x y f f'

-- Numbers below 256 that are encoded in base 32 decode to the same numbers.
pub base32_decode-encode :
    (bs : List ℕ) → All IsByte bs → base32_decode (base32_encode bs) ≡ some bs
unfolding base32_decode base32_encode
base32_decode-encode bs bytes = Decodes-phase even bs tt bytes
