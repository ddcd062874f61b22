-- ===== src/Contract/Scval.antt =====
-- The helpers of src/lib.rs that read a policy in its wire form: an `ScVal` that a host gave, before any
-- conversion.
pub mod Shape
pub mod Order
pub mod Fields
pub mod Wire
use Prim.Native.String.{String}
use stellar_agent_guard_cont.Common.{
  ℕ, ℤ, Bool, true, false, not, ◌&&◌, ◌||◌, Option, none, some, List, [], ◌∷◌, length, any, all,
  ltb, leb, ◌==◌, if◌then◌else◌,
}
use stellar_agent_guard_cont.AgentTx.Text.{codes, text_eq}

-- The variants of an address; what no code looks into is a number.
pub data ScAddress : Type 0 where
  account contract_address muxed_account claimable_balance liquidity_pool : ℕ → ScAddress

-- The values that the code tells apart, a symbol by its bytes; all others are one variant. `Vec(None)` is
-- `null_vec`, `Map(None)` is `null_map`.
mutual
  pub data ScVal : Type 0 where
    bool : Bool → ScVal
    void : ScVal
    u64 : ℕ → ScVal
    i128 : ℤ → ScVal
    symbol : List ℕ → ScVal
    null_vec : ScVal
    vec : ScVec → ScVal
    null_map : ScVal
    map_of : ScMap → ScVal
    address : ScAddress → ScVal
    other_val : ℕ → ScVal

  pub data ScVec : Type 0 where
    no_items : ScVec
    item : ScVal → ScVec → ScVec

  pub data ScMap : Type 0 where
    no_entries : ScMap
    entry : ScVal → ScVal → ScMap → ScMap

-- `ScMapEntry`
pub record ScMapEntry : Type 0 where
  pub key : ScVal
  pub val : ScVal

abbrev pub vec_items : ScVec → List ScVal
vec_items no_items = []
vec_items (item v vs) = v ∷ vec_items vs

abbrev pub entries_of : ScMap → List ScMapEntry
entries_of no_entries = []
entries_of (entry k v es) = record { key = k; val = v } ∷ entries_of es

-- UTF-8: the ranges of the bytes that have to follow a leading byte.
pub record Between : Type 0 where
  pub lowest : ℕ
  pub highest : ℕ

abbrev tail_byte : Between
tail_byte = record { lowest = 128; highest = 191 }

abbrev within : ℕ → ℕ → ℕ → Bool
within low high b = leb low b && leb b high

abbrev following : ℕ → Option (List Between)
following b =
    if ltb b 128
    then some []
    else if within 194 223 b
    then some (tail_byte ∷ [])
    else if b == 224
    then some (record { lowest = 160; highest = 191 } ∷ tail_byte ∷ [])
    else if b == 237
    then some (record { lowest = 128; highest = 159 } ∷ tail_byte ∷ [])
    else if within 225 239 b
    then some (tail_byte ∷ tail_byte ∷ [])
    else if b == 240
    then some (record { lowest = 144; highest = 191 } ∷ tail_byte ∷ tail_byte ∷ [])
    else if within 241 243 b
    then some (tail_byte ∷ tail_byte ∷ tail_byte ∷ [])
    else if b == 244
    then some (record { lowest = 128; highest = 143 } ∷ tail_byte ∷ tail_byte ∷ [])
    else none

-- The first list holds the ranges of the bytes that are due.
abbrev pub utf8_from : List Between → List ℕ → Bool
utf8_from [] [] = true
utf8_from (due ∷ dues) [] = false
utf8_from (due ∷ dues) (b ∷ bs) = within due.lowest due.highest b && utf8_from dues bs
utf8_from [] (b ∷ bs) = elim (following b) [ none ↦ false | some dues ↦ utf8_from dues bs ]

-- `to_utf8_string().ok()`
abbrev pub to_utf8_string : List ℕ → Option (List ℕ)
to_utf8_string bytes = if utf8_from [] bytes then some bytes else none

-- `a < b` on strings, by their bytes
abbrev pub text_ltb : List ℕ → List ℕ → Bool
text_ltb s [] = false
text_ltb [] (b ∷ t) = true
text_ltb (a ∷ s) (b ∷ t) = ltb a b || (a == b) && text_ltb s t

-- `let ScVal::Symbol(symbol) = key` and `symbol.to_utf8_string()`
abbrev pub key_text : ScVal → Option (List ℕ)
key_text (symbol bytes) = to_utf8_string bytes
key_text _ = none

abbrev pub follows : Option (List ℕ) → List ℕ → Bool
follows none key = true
follows (some previous) key = text_ltb previous key

abbrev pub is_name : List ℕ → String → Bool
is_name key field = text_eq key (codes field)

-- The loop over the entries, with the previous key.
unfoldable pub keys_ascend : Option (List ℕ) → List String → List ScMapEntry → Bool
keys_ascend previous expected [] = true
keys_ascend previous expected (e ∷ es) = elim (key_text e.key) [
  | none ↦ false
  | some key ↦
      follows previous key && any (is_name key) expected && keys_ascend (some key) expected es
]

abbrev pub text_is : Option (List ℕ) → String → Bool
text_is none field = false
text_is (some key) field = is_name key field

abbrev pub key_is : String → ScMapEntry → Bool
key_is field e = text_is (key_text e.key) field

unfoldable pub has_exact_scval_fields : ScVal → List String → Bool
unfolding keys_ascend
has_exact_scval_fields (map_of m) expected =
    let entries = entries_of m in
    length entries == length expected
    && keys_ascend none expected entries
    && all (λ (field : String). any (key_is field) entries) expected
has_exact_scval_fields _ expected = false

abbrev find_field : String → List ScMapEntry → Option ScVal
find_field field [] = none
find_field field (e ∷ es) = if key_is field e then some e.val else find_field field es

abbrev pub scval_field : ScVal → String → Option ScVal
scval_field (map_of m) field = find_field field (entries_of m)
scval_field _ field = none

abbrev pub scval_is_address : ScVal → Bool
scval_is_address (address (account a)) = true
scval_is_address (address (contract_address a)) = true
scval_is_address _ = false

abbrev pub scval_is_bool : ScVal → Bool
scval_is_bool (bool b) = true
scval_is_bool _ = false

abbrev pub scval_is_i128 : ScVal → Bool
scval_is_i128 (i128 n) = true
scval_is_i128 _ = false

abbrev pub is_symbol : ScVal → Bool
is_symbol (symbol bytes) = true
is_symbol _ = false

abbrev pub scval_is_symbol_list_or_void : ScVal → Bool
scval_is_symbol_list_or_void void = true
scval_is_symbol_list_or_void (vec items) = all is_symbol (vec_items items)
scval_is_symbol_list_or_void _ = false

abbrev pub scval_vec_is_addresses : ScVal → Bool
scval_vec_is_addresses (vec items) = all scval_is_address (vec_items items)
scval_vec_is_addresses _ = false
