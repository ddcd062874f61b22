-- ===== src/AgentTx/Json.antt =====
-- JSON values as `serde_json` gives them to tools/agent-tx/src/main.rs, and the parsing of numbers.
use Prim.Native.String.{String}
use stellar_agent_guard_cont.Common.{
  ℕ, ◌+◌, ◌-◌, ◌*◌, Bool, true, false, ◌&&◌, Option, none, some, List, [], ◌∷◌, leb, ltb, ◌==◌,
  if◌then◌else◌,
}
use stellar_agent_guard_cont.Types.Policy.{sym_eq}

-- Numbers that are no `u64` are one value; no code reads them.
mutual
  pub data Json : Type 0 where
    null : Json
    boolean : Bool → Json
    number : ℕ → Json
    other_number : Json
    text : List ℕ → Json
    array : Items → Json
    object : Fields → Json

  pub data Items : Type 0 where
    none_left : Items
    item : Json → Items → Items

  pub data Fields : Type 0 where
    no_fields : Fields
    field : String → Json → Fields → Fields

abbrev pub lookup : Fields → String → Option Json
lookup no_fields k = none
lookup (field name v rest) k = if sym_eq name k then some v else lookup rest k

-- `value.get(key)`
abbrev pub get : Json → String → Option Json
get (object fields) k = lookup fields k
get _ k = none

abbrev or_null : Option Json → Json
or_null none = null
or_null (some v) = v

-- `value[key]`, `null` where there is none
abbrev pub at_key : Json → String → Json
at_key v k = or_null (get v k)

abbrev pub as_str : Json → Option (List ℕ)
as_str (text s) = some s
as_str _ = none

abbrev pub as_u64 : Json → Option ℕ
as_u64 (number n) = some n
as_u64 _ = none

abbrev pub items_of : Items → List Json
items_of none_left = []
items_of (item v rest) = v ∷ items_of rest

abbrev pub as_array : Json → Option (List Json)
as_array (array items) = some (items_of items)
as_array _ = none

abbrev pub is_null : Json → Bool
is_null null = true
is_null _ = false

-- `o.or(p)`
abbrev pub first_some {ℓ} : {A : Type ℓ} → Option A → Option A → Option A
first_some none p = p
first_some (some a) p = some a

abbrev pub is_digit : ℕ → Bool
is_digit c = leb 48 c && leb c 57

-- The digits after those that make up `acc`.
abbrev pub digits_from : ℕ → List ℕ → Option ℕ
digits_from acc [] = some acc
digits_from acc (c ∷ cs) =
    let rest = digits_from (acc * 10 + (c - 48)) cs in if is_digit c then rest else none

abbrev pub digits : List ℕ → Option ℕ
digits [] = none
digits (c ∷ cs) = digits_from 0 (c ∷ cs)

abbrev pub below : ℕ → Option ℕ → Option ℕ
below bound none = none
below bound (some n) = if ltb n bound then some n else none

-- `parse` of an unsigned integer below `bound`: digits, and a sign + at most
abbrev pub parse_unsigned : ℕ → List ℕ → Option ℕ
parse_unsigned bound [] = none
parse_unsigned bound (c ∷ cs) = below bound (if c == b'+' then digits cs else digits (c ∷ cs))
