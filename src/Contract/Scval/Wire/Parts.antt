-- ===== src/Contract/Scval/Wire/Parts.antt =====
-- The tests of src/lib.rs on the fields of a policy's wire form and on the elements of its lists.
use stellar_agent_guard_cont.Common.{
  ℕ, ℤ, ◌≡◌, refl, ap, Bool, true, Option, none, some, List, [], ◌∷◌, all, and_true, both_true,
}
use stellar_agent_guard_cont.Contract.Scval.{
  account, contract_address, ScVal, void, i128, symbol, vec, address, ScVec, no_items, item,
  vec_items, scval_is_address, scval_is_bool, scval_is_i128, is_symbol,
  scval_is_symbol_list_or_void, scval_vec_is_addresses,
}
use stellar_agent_guard_cont.Contract.Scval.Shape.{vec_of}
use stellar_agent_guard_cont.Contract.Scval.Wire.{
  WireAddress, of_account, of_contract, address_scval, items_scval, list_scval, fns_scval,
}

-- A test that accepts exactly what a function writes.
pub record Accepts {A : Type 0} (test : ScVal → Bool) (write : A → ScVal) : Type 0 where
  pub written : (v : ScVal) → test v ≡ true → (a : A) × (v ≡ write a)
  pub accepted : (a : A) → test (write a) ≡ true

pub address_written :
    (v : ScVal) → scval_is_address v ≡ true → (a : WireAddress) × (v ≡ address_scval a)
address_written (address (account n)) h = (of_account n, refl)
address_written (address (contract_address n)) h = (of_contract n, refl)
address_written v h = cc h

pub bool_written : (v : ScVal) → scval_is_bool v ≡ true → (b : Bool) × (v ≡ ScVal.bool b)
bool_written (ScVal.bool b) h = (b, refl)
bool_written v h = cc h

pub i128_written : (v : ScVal) → scval_is_i128 v ≡ true → (n : ℤ) × (v ≡ i128 n)
i128_written (i128 n) h = (n, refl)
i128_written v h = cc h

symbol_written : (v : ScVal) → is_symbol v ≡ true → (s : List ℕ) × (v ≡ symbol s)
symbol_written (symbol s) h = (s, refl)
symbol_written v h = cc h

pub address_accepted : (a : WireAddress) → scval_is_address (address_scval a) ≡ true
address_accepted (of_account n) = refl
address_accepted (of_contract n) = refl

pub Accepts-address : Accepts scval_is_address address_scval
Accepts-address = record { written = address_written; accepted = address_accepted }

Accepts-symbol : Accepts is_symbol symbol
Accepts-symbol = record { written = symbol_written; accepted = λ s. refl }

module _ {A : Type 0} (test : ScVal → Bool) (write : A → ScVal) (r : Accepts test write) where
  items_written :
      (vs : ScVec) → all test (vec_items vs) ≡ true → (xs : List A) × (vs ≡ items_scval write xs)
  items_written no_items h = ([], refl)
  items_written (item v vs) h =
      let (t, ts) = and_true (test v) (all test (vec_items vs)) h in
      let (a, e) = r.written v t in let (xs, es) = items_written vs ts in (a ∷ xs, cc)

  items_accepted : (xs : List A) → all test (vec_items (items_scval write xs)) ≡ true
  items_accepted [] = refl
  items_accepted (a ∷ xs) =
      both_true (test (write a)) (all test (vec_items (items_scval write xs))) (r.accepted a)
        (items_accepted xs)

  list_written : (v : ScVal) → vec_of test v ≡ true → (xs : List A) × (v ≡ list_scval write xs)
  list_written (vec vs) h = let (xs, e) = items_written vs h in (xs, ap vec e)
  list_written v h = cc h

  pub Accepts-list : Accepts (vec_of test) (list_scval write)
  Accepts-list = record { written = list_written; accepted = items_accepted }

addresses_written :
    (v : ScVal)
    → scval_vec_is_addresses v ≡ true
    → (xs : List WireAddress) × (v ≡ list_scval address_scval xs)
addresses_written (vec vs) h =
    let (xs, e) = items_written scval_is_address address_scval Accepts-address vs h in
    (xs, ap vec e)
addresses_written v h = cc h

pub Accepts-addresses : Accepts scval_vec_is_addresses (list_scval address_scval)
Accepts-addresses = record {
  written = addresses_written;
  accepted = items_accepted scval_is_address address_scval Accepts-address;
}

pub fns_written :
    (v : ScVal)
    → scval_is_symbol_list_or_void v ≡ true
    → (fns : Option (List (List ℕ))) × (v ≡ fns_scval fns)
fns_written void h = (none, refl)
fns_written (vec vs) h =
    let (xs, e) = items_written is_symbol symbol Accepts-symbol vs h in (some xs, ap vec e)
fns_written v h = cc h

pub fns_accepted :
    (fns : Option (List (List ℕ))) → scval_is_symbol_list_or_void (fns_scval fns) ≡ true
fns_accepted none = refl
fns_accepted (some fns) = items_accepted is_symbol symbol Accepts-symbol fns
