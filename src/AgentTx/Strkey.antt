-- ===== src/AgentTx/Strkey.antt =====
-- StrKeys: the checksum and the envelope of tools/agent-tx/src/base32.rs, and the validation of
-- tools/agent-tx/src/strkey.rs. A string is the list of its characters' codes.
pub mod Roundtrip
use Prim.Native.Nat.{◌%◌, bit_and, bit_xor}
use stellar_agent_guard_cont.Common.{
  ℕ, zero, suc, ◌+◌, ◌-◌, ◌*◌, ◌/◌, Bool, true, false, not, ◌&&◌, ◌||◌, Option, none, some, List,
  [], ◌∷◌, ◌++◌, length, any, take, drop, get_or, ltb, leb, ◌==◌, if◌then◌else◌,
}
use stellar_agent_guard_cont.AgentTx.Base32.{b32, base32_decode, base32_encode}

-- `^` of two `u16`
abbrev pub xor_u16 : ℕ → ℕ → ℕ
xor_u16 a b = bit_xor a b % 65536

-- One round of the inner loop of `crc16_xmodem`; the shift drops what leaves 16 bits.
abbrev pub crc_round : ℕ → ℕ
crc_round crc =
    let shifted = crc * 2 % 65536 in
    if bit_and crc 0x8000 == 0 then shifted else xor_u16 shifted 0x1021

unfoldable pub crc_rounds : ℕ → ℕ → ℕ
crc_rounds zero crc = crc
crc_rounds (suc n) crc = crc_rounds n (crc_round crc)

unfoldable pub crc_from : ℕ → List ℕ → ℕ
unfolding crc_rounds
crc_from crc [] = crc
crc_from crc (b ∷ bs) = crc_from (crc_rounds 8 (xor_u16 crc (b * 256))) bs

unfoldable pub crc16_xmodem : List ℕ → ℕ
unfolding crc_from
crc16_xmodem bytes = crc_from 0 bytes

unfoldable pub strkey_encode : ℕ → List ℕ → List ℕ
unfolding crc16_xmodem
strkey_encode version payload =
    let raw = version ∷ payload in
    let crc = crc16_xmodem raw in base32_encode (raw ++ crc % 256 ∷ crc / 256 % 256 ∷ [])

abbrev pub ver_account : ℕ
ver_account = 48

abbrev pub ver_contract : ℕ
ver_contract = 16

abbrev pub ver_secret : ℕ
ver_secret = 0x90

abbrev pub strkey_len : ℕ
strkey_len = 56

abbrev is_ascii_lowercase : ℕ → Bool
is_ascii_lowercase c = leb 97 c && leb c 122

-- `to_ascii_uppercase`
abbrev uppercase : ℕ → ℕ
uppercase c = if is_ascii_lowercase c then c - 32 else c

abbrev pub in_alphabet : ℕ → Bool
in_alphabet c = ltb c 128 && not (is_ascii_lowercase c) && any (λ (a : ℕ). a == uppercase c) b32

-- The rules that a value can break, in place of the messages.
pub data StrkeyError : Type 0 where
  empty_value not_base32 : StrkeyError
  -- the character and its position
  lowercase outside : ℕ → ℕ → StrkeyError
  wrong_length wrong_size : ℕ → StrkeyError
  -- computed and found
  wrong_checksum : ℕ → ℕ → StrkeyError
  wrong_version : ℕ → StrkeyError

pub data Checked (A : Type 0) : Type 0 where
  accepted : A → Checked A
  refused : StrkeyError → Checked A

-- The first character outside the alphabet, with its position, counted from `i`.
unfoldable pub first_outside : ℕ → List ℕ → Option (ℕ × ℕ)
first_outside i [] = none
first_outside i (c ∷ cs) = if in_alphabet c then first_outside (suc i) cs else some (i, c)

abbrev pub alphabet_error : ℕ → ℕ → StrkeyError
alphabet_error i c =
    if is_ascii_lowercase c && in_alphabet (uppercase c) then lowercase c i else outside c i

-- The sizes and the checksum of the two parts of `size` decoded bytes.
abbrev pub check_parts : ℕ → List ℕ → List ℕ → Checked (ℕ × List ℕ)
check_parts size body checksum =
    let expected = crc16_xmodem body in
    let found = get_or checksum 1 0 * 256 + get_or checksum 0 0 in
    if not (length body == 33) || not (length checksum == 2)
    then refused (wrong_size size)
    else if not (expected == found)
    then refused (wrong_checksum expected found)
    else accepted (get_or body 0 0, drop 1 body)

abbrev pub check_raw : List ℕ → Checked (ℕ × List ℕ)
check_raw raw = check_parts (length raw) (take (length raw - 2) raw) (drop (length raw - 2) raw)

abbrev pub check_decoded : Option (List ℕ) → Checked (ℕ × List ℕ)
check_decoded none = refused not_base32
check_decoded (some raw) = check_raw raw

abbrev pub check_alphabet : Option (ℕ × ℕ) → List ℕ → Checked (ℕ × List ℕ)
check_alphabet (some (i, c)) value = refused (alphabet_error i c)
check_alphabet none value =
    if length value == strkey_len
    then check_decoded (base32_decode value)
    else refused (wrong_length (length value))

-- The version byte and the 32 bytes of the key.
unfoldable pub decode_strkey : List ℕ → Checked (ℕ × List ℕ)
unfolding first_outside
decode_strkey [] = refused empty_value
decode_strkey (c ∷ cs) = check_alphabet (first_outside 0 (c ∷ cs)) (c ∷ cs)

pub data KeyKind : Type 0 where
  contract_id account_id recipient_id secret_seed : KeyKind

abbrev pub versions : KeyKind → List ℕ
versions contract_id = ver_contract ∷ []
versions account_id = ver_account ∷ []
versions recipient_id = ver_account ∷ ver_contract ∷ []
versions secret_seed = ver_secret ∷ []

abbrev pub check_version : KeyKind → Checked (ℕ × List ℕ) → Checked (List ℕ)
check_version kind (refused e) = refused e
check_version kind (accepted (version, key)) =
    if any (λ (v : ℕ). v == version) (versions kind)
    then accepted key
    else refused (wrong_version version)

unfoldable pub validate_key : KeyKind → List ℕ → Checked (List ℕ)
validate_key kind value = check_version kind (decode_strkey value)
