-- ===== src/AgentTx/Strkey/Roundtrip.antt =====
-- A key that is written as a StrKey is read back, and accepted exactly where its kind is.
use Prim.Native.Nat.{◌%◌}
use stellar_agent_guard_cont.Common.{
  ℕ, zero, suc, ◌+◌, ◌-◌, ◌*◌, ◌/◌, ◌≤◌, ◌<◌, ◌≡◌, refl, ap, ◌∙◌, Bool, true, Option, none, some,
  List, [], ◌∷◌, ◌++◌, All, All-append, length, length-append, take, drop, any, arith, ◌==◌,
  if◌then◌else◌,
}
use stellar_agent_guard_cont.AgentTx.Base32.{
  char_of, base32_decode, flush_chars, encode_from, base32_encode,
}
use stellar_agent_guard_cont.AgentTx.Base32.Roundtrip.{
  IsByte, all_below, all_below_lem, base32_decode-encode,
}
use stellar_agent_guard_cont.AgentTx.Strkey.{
  crc_round, crc_rounds, crc_from, crc16_xmodem, xor_u16, strkey_encode, strkey_len, in_alphabet,
  accepted, refused, wrong_version, wrong_length, first_outside, check_parts, check_raw,
  check_decoded, check_alphabet, decode_strkey, KeyKind, versions, check_version, validate_key,
}

-- The lengths of what is encoded with `bits` bits held.
HasLength : ℕ → List ℕ → List ℕ → Type 0
HasLength bits bs out =
    (8 * length bs + bits ≤ 5 * length out) × (5 * length out ≤ 8 * length bs + bits + 4)

encode_from-HasLength :
    (acc bits : ℕ) (bs : List ℕ) → bits < 5 → HasLength bits bs (encode_from acc bits bs)
unfolding encode_from flush_chars HasLength
encode_from-HasLength acc zero [] h = (omega arith, omega arith)
encode_from-HasLength acc (suc zero) [] h = (omega arith, omega arith)
encode_from-HasLength acc (suc (suc zero)) [] h = (omega arith, omega arith)
encode_from-HasLength acc (suc (suc (suc zero))) [] h = (omega arith, omega arith)
encode_from-HasLength acc (suc (suc (suc (suc zero)))) [] h = (omega arith, omega arith)
encode_from-HasLength acc zero (b ∷ bs) h =
    let (least, most) = encode_from-HasLength ((acc * 256 + b) % 8) 3 bs (omega arith) in
    (omega arith, omega arith)
encode_from-HasLength acc (suc zero) (b ∷ bs) h =
    let (least, most) = encode_from-HasLength ((acc * 256 + b) % 16) 4 bs (omega arith) in
    (omega arith, omega arith)
encode_from-HasLength acc (suc (suc zero)) (b ∷ bs) h =
    let (least, most) = encode_from-HasLength ((acc * 256 + b) % 1) 0 bs (omega arith) in
    (omega arith, omega arith)
encode_from-HasLength acc (suc (suc (suc zero))) (b ∷ bs) h =
    let (least, most) = encode_from-HasLength ((acc * 256 + b) % 2) 1 bs (omega arith) in
    (omega arith, omega arith)
encode_from-HasLength acc (suc (suc (suc (suc zero)))) (b ∷ bs) h =
    let (least, most) = encode_from-HasLength ((acc * 256 + b) % 4) 2 bs (omega arith) in
    (omega arith, omega arith)
encode_from-HasLength acc (suc (suc (suc (suc (suc n))))) bs h = absurd (omega arith)

-- A character of the code.
IsCode : ℕ → Type 0
IsCode c = in_alphabet c ≡ true

all_codes : all_below (λ v. in_alphabet (char_of v)) 32 ≡ true
all_codes = refl

char_of-IsCode : (v : ℕ) → v < 32 → IsCode (char_of v)
unfolding IsCode
char_of-IsCode v lt = all_below_lem (λ v. in_alphabet (char_of v)) 32 v all_codes lt

digit-IsCode : (n : ℕ) → IsCode (char_of (n % 32))
digit-IsCode n = char_of-IsCode (n % 32) (omega arith)

encode_from-All_codes :
    (acc bits : ℕ) (bs : List ℕ) → bits < 5 → All IsCode (encode_from acc bits bs)
unfolding encode_from flush_chars
encode_from-All_codes acc zero [] h = tt
encode_from-All_codes acc (suc zero) [] h = (digit-IsCode (acc * 16), tt)
encode_from-All_codes acc (suc (suc zero)) [] h = (digit-IsCode (acc * 8), tt)
encode_from-All_codes acc (suc (suc (suc zero))) [] h = (digit-IsCode (acc * 4), tt)
encode_from-All_codes acc (suc (suc (suc (suc zero)))) [] h = (digit-IsCode (acc * 2), tt)
encode_from-All_codes acc zero (b ∷ bs) h = (
  digit-IsCode ((acc * 256 + b) / 8),
  encode_from-All_codes ((acc * 256 + b) % 8) 3 bs (omega arith),
)
encode_from-All_codes acc (suc zero) (b ∷ bs) h = (
  digit-IsCode ((acc * 256 + b) / 16),
  encode_from-All_codes ((acc * 256 + b) % 16) 4 bs (omega arith),
)
encode_from-All_codes acc (suc (suc zero)) (b ∷ bs) h = (
  digit-IsCode ((acc * 256 + b) / 32),
  (
    digit-IsCode ((acc * 256 + b) / 1),
    encode_from-All_codes ((acc * 256 + b) % 1) 0 bs (omega arith),
  ),
)
encode_from-All_codes acc (suc (suc (suc zero))) (b ∷ bs) h = (
  digit-IsCode ((acc * 256 + b) / 64),
  (
    digit-IsCode ((acc * 256 + b) / 2),
    encode_from-All_codes ((acc * 256 + b) % 2) 1 bs (omega arith),
  ),
)
encode_from-All_codes acc (suc (suc (suc (suc zero)))) (b ∷ bs) h = (
  digit-IsCode ((acc * 256 + b) / 128),
  (
    digit-IsCode ((acc * 256 + b) / 4),
    encode_from-All_codes ((acc * 256 + b) % 4) 2 bs (omega arith),
  ),
)
encode_from-All_codes acc (suc (suc (suc (suc (suc n))))) bs h = absurd (omega arith)

first_outside-none : (i : ℕ) (cs : List ℕ) → All IsCode cs → first_outside i cs ≡ none
unfolding first_outside IsCode
first_outside-none i [] h = refl
first_outside-none i (c ∷ cs) (h, hs) = rw h (first_outside-none (suc i) cs hs)

take-append {ℓ} : {A : Type ℓ} (xs ys : List A) → take (length xs) (xs ++ ys) ≡ xs
take-append [] ys = refl
take-append (x ∷ xs) ys = ap (λ zs. x ∷ zs) (take-append xs ys)

drop-append {ℓ} : {A : Type ℓ} (xs ys : List A) → drop (length xs) (xs ++ ys) ≡ ys
drop-append [] ys = refl
drop-append (x ∷ xs) ys = drop-append xs ys

crc_round_small : (crc : ℕ) → crc_round crc < 65536
crc_round_small crc = ground arith

crc_rounds_small : (n crc : ℕ) → crc < 65536 → crc_rounds n crc < 65536
unfolding crc_rounds
crc_rounds_small zero crc h = h
crc_rounds_small (suc n) crc h = crc_rounds_small n (crc_round crc) (crc_round_small crc)

crc_from_small : (crc : ℕ) (bs : List ℕ) → crc < 65536 → crc_from crc bs < 65536
unfolding crc_from
crc_from_small crc [] h = h
crc_from_small crc (b ∷ bs) h =
    crc_from_small (crc_rounds 8 (xor_u16 crc (b * 256))) bs
      (crc_rounds_small 8 (xor_u16 crc (b * 256)) (omega arith))

crc16_small : (bs : List ℕ) → crc16_xmodem bs < 65536
unfolding crc16_xmodem
crc16_small bs = crc_from_small 0 bs (omega arith)

-- The bytes with their checksum pass the check.
check_raw_good :
    (version : ℕ) (payload : List ℕ) (crc : ℕ)
    → length payload ≡ 32
    → crc16_xmodem (version ∷ payload) ≡ crc
    → check_raw ((version ∷ payload) ++ crc % 256 ∷ crc / 256 % 256 ∷ [])
      ≡ accepted (version, payload)
check_raw_good version payload crc size sum =
    let tail : List ℕ = crc % 256 ∷ crc / 256 % 256 ∷ [] in
    let raw = (version ∷ payload) ++ tail in
    let cut : length raw - 2 ≡ length (version ∷ payload) =
      omega (arith, length-append (version ∷ payload) tail) in
    let body : take (length raw - 2) raw ≡ version ∷ payload =
      ap (λ (n : ℕ). take n raw) cut ∙ take-append (version ∷ payload) tail in
    let checksum : drop (length raw - 2) raw ≡ tail =
      ap (λ (n : ℕ). drop n raw) cut ∙ drop-append (version ∷ payload) tail in
    let back : crc / 256 % 256 * 256 + crc % 256 ≡ crc =
      let small = crc16_small (version ∷ payload) in omega (arith, sum) in
    ap (λ (b : List ℕ). check_parts (length raw) b (drop (length raw - 2) raw)) body
    ∙ ap (λ (c : List ℕ). check_parts (length raw) (version ∷ payload) c) checksum
    ∙ ground arith

-- A value of the right length and alphabet is judged by its bytes.
decode_strkey-raw :
    (out raw : List ℕ)
    → length out ≡ 56
    → All IsCode out
    → base32_decode out ≡ some raw
    → decode_strkey out ≡ check_raw raw
unfolding decode_strkey
decode_strkey-raw [] raw long codes decoded = absurd (omega arith)
decode_strkey-raw (c ∷ cs) raw long codes decoded =
    let is_long : (length (c ∷ cs) == strkey_len) ≡ true = ground arith in
    ap (λ (o : Option (ℕ × ℕ)). check_alphabet o (c ∷ cs)) (first_outside-none 0 (c ∷ cs) codes)
    ∙ ap
        (λ (b : Bool).
          if b
          then check_decoded (base32_decode (c ∷ cs))
          else refused (wrong_length (length (c ∷ cs))))
        is_long
    ∙ ap check_decoded decoded

base32_encode-HasLength : (raw : List ℕ) → length raw ≡ 35 → length (base32_encode raw) ≡ 56
unfolding base32_encode HasLength
base32_encode-HasLength raw long =
    let (least, most) = encode_from-HasLength 0 0 raw (omega arith) in omega arith

base32_encode-All_codes : (raw : List ℕ) → All IsCode (base32_encode raw)
unfolding base32_encode
base32_encode-All_codes raw = encode_from-All_codes 0 0 raw (omega arith)

-- A version byte and 32 bytes that are written as a StrKey are read back from it.
pub decode_strkey-encode :
    (version : ℕ) (payload : List ℕ)
    → IsByte version
    → All IsByte payload
    → length payload ≡ 32
    → decode_strkey (strkey_encode version payload) ≡ accepted (version, payload)
unfolding strkey_encode
decode_strkey-encode version payload byte bytes size =
    let crc = crc16_xmodem (version ∷ payload) in
    let tail : List ℕ = crc % 256 ∷ crc / 256 % 256 ∷ [] in
    let raw = (version ∷ payload) ++ tail in
    let long : length raw ≡ 35 = omega (arith, length-append (version ∷ payload) tail) in
    let all_bytes : All IsByte raw =
      All-append IsByte (version ∷ payload) tail (byte, bytes) (omega arith, (omega arith, tt)) in
    decode_strkey-raw (base32_encode raw) raw (base32_encode-HasLength raw long)
      (base32_encode-All_codes raw) (base32_decode-encode raw all_bytes)
    ∙ check_raw_good version payload crc size refl

-- A key that is written as a StrKey is accepted by a flag exactly where its version is one of the
-- flag's kind, and then as the same 32 bytes; any other kind is refused by its version.
pub validate_key-encode :
    (kind : KeyKind) (version : ℕ) (payload : List ℕ)
    → IsByte version
    → All IsByte payload
    → length payload ≡ 32
    → validate_key kind (strkey_encode version payload) ≡ (
        if any (λ (v : ℕ). v == version) (versions kind)
        then accepted payload
        else refused (wrong_version version))
unfolding validate_key
validate_key-encode kind version payload byte bytes size =
    ap (check_version kind) (decode_strkey-encode version payload byte bytes size)
