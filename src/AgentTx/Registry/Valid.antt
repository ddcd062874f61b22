-- ===== src/AgentTx/Registry/Valid.antt =====
-- The registry stays consistent: no alias and no address twice, and a default wherever there is a guard.
use Prim.Native.String.{String}
use text.Mathlib.TextEquality.{eq_iff}
use text.Mathlib.TextPositions.{eq_refl}
use stellar_agent_guard_cont.Common.{
  ◌≡◌, ◌≢◌, refl, sym, true, false, ◌||◌, Option, none, some, List, [], ◌∷◌, ◌++◌, arith,
  Bool-cases, inl, inr, subst, if◌then◌else◌,
}
use stellar_agent_guard_cont.Types.Policy.{sym_eq}
use stellar_agent_guard_cont.AgentTx.Text.{Result, ok, err, some_injective}
use stellar_agent_guard_cont.AgentTx.Registry.{
  GuardEntry, Registry, RegistryError, named_or_error, default_address, alias_exists,
  address_registered, alias_not_found, no_guard_registered, no_guards, has_alias, has_address,
  add_guard, remove_named, remove_guard, set_default, address_named, resolve_guard, Edit, add,
  remove, set, edit, edits, kept, is_default, first_alias, or_default,
}

abbrev pub AliasesApart : List GuardEntry → Type 0
AliasesApart [] = Unit {0}
AliasesApart (g ∷ gs) = (has_alias gs g.alias ≡ false) × AliasesApart gs

abbrev pub AddressesApart : List GuardEntry → Type 0
AddressesApart [] = Unit {0}
AddressesApart (g ∷ gs) = (has_address gs g.address ≡ false) × AddressesApart gs

pub record IsValid (reg : Registry) : Type 0 where
  pub aliases : AliasesApart reg.guards
  pub addresses : AddressesApart reg.guards
  pub default_named : (d : String) → reg.default ≡ some d → has_alias reg.guards d ≡ true
  pub default_given : reg.default ≡ none → reg.guards ≡ []

has_alias-append :
    (gs : List GuardEntry) (g : GuardEntry) (a : String)
    → has_alias (gs ++ (g ∷ [])) a ≡ has_alias gs a || sym_eq g.alias a
unfolding has_alias
has_alias-append [] g a = ground arith
has_alias-append (x ∷ gs) g a = ground (arith, has_alias-append gs g a)

has_address-append :
    (gs : List GuardEntry) (g : GuardEntry) (a : String)
    → has_address (gs ++ (g ∷ [])) a ≡ has_address gs a || sym_eq g.address a
unfolding has_address
has_address-append [] g a = ground arith
has_address-append (x ∷ gs) g a = ground (arith, has_address-append gs g a)

append-AliasesApart :
    (gs : List GuardEntry) (g : GuardEntry)
    → AliasesApart gs
    → has_alias gs g.alias ≡ false
    → AliasesApart (gs ++ (g ∷ []))
unfolding has_alias
append-AliasesApart [] g h new = (refl, tt)
append-AliasesApart (x ∷ gs) g h new = ground (
  arith,
  has_alias-append gs g x.alias,
  append-AliasesApart gs g h.1,
  eq_iff x.alias g.alias,
  eq_iff g.alias x.alias,
)

append-AddressesApart :
    (gs : List GuardEntry) (g : GuardEntry)
    → AddressesApart gs
    → has_address gs g.address ≡ false
    → AddressesApart (gs ++ (g ∷ []))
unfolding has_address
append-AddressesApart [] g h new = (refl, tt)
append-AddressesApart (x ∷ gs) g h new = ground (
  arith,
  has_address-append gs g x.address,
  append-AddressesApart gs g h.1,
  eq_iff x.address g.address,
  eq_iff g.address x.address,
)

-- What is left has no alias and no address that was not there, and keeps the other aliases.
has_alias-remove_named :
    (gs : List GuardEntry) (a b : String)
    → has_alias gs b ≡ false
    → has_alias (remove_named gs a) b ≡ false
unfolding has_alias remove_named
has_alias-remove_named [] a b h = refl
has_alias-remove_named (g ∷ gs) a b h = ground (arith, has_alias-remove_named gs a b)

has_address-remove_named :
    (gs : List GuardEntry) (a b : String)
    → has_address gs b ≡ false
    → has_address (remove_named gs a) b ≡ false
unfolding has_address remove_named
has_address-remove_named [] a b h = refl
has_address-remove_named (g ∷ gs) a b h = ground (arith, has_address-remove_named gs a b)

other-remove_named :
    (gs : List GuardEntry) (a b : String)
    → sym_eq b a ≡ false
    → has_alias gs b ≡ true
    → has_alias (remove_named gs a) b ≡ true
unfolding has_alias remove_named
other-remove_named [] a b ne h = h
other-remove_named (g ∷ gs) a b ne h =
    ground (arith, other-remove_named gs a b ne, eq_iff g.alias a, eq_iff g.alias b, eq_iff b a)

remove_named-AliasesApart :
    (gs : List GuardEntry) (a : String) → AliasesApart gs → AliasesApart (remove_named gs a)
unfolding remove_named
remove_named-AliasesApart [] a h = tt
remove_named-AliasesApart (g ∷ gs) a h =
    ground (arith, remove_named-AliasesApart gs a h.1, has_alias-remove_named gs a g.alias)

remove_named-AddressesApart :
    (gs : List GuardEntry) (a : String) → AddressesApart gs → AddressesApart (remove_named gs a)
unfolding remove_named
remove_named-AddressesApart [] a h = tt
remove_named-AddressesApart (g ∷ gs) a h =
    ground (arith, remove_named-AddressesApart gs a h.1, has_address-remove_named gs a g.address)

no_guards-IsValid : IsValid no_guards
no_guards-IsValid = record {
  aliases = tt;
  addresses = tt;
  default_named = λ d h. cc h;
  default_given = λ _. refl;
}

-- The first alias of what is left is one of what is left.
first_named : (gs : List GuardEntry) (d : String) → first_alias gs ≡ some d → has_alias gs d ≡ true
unfolding has_alias
first_named [] d h = cc h
first_named (g ∷ gs) d h = ground (arith, some_injective g.alias d h, eq_refl g.alias)

first_given : (gs : List GuardEntry) → first_alias gs ≡ none → gs ≡ []
first_given [] h = refl
first_given (g ∷ gs) h = cc h

default_after_add :
    (gs : List GuardEntry) (o : Option String) (g : GuardEntry) (d : String)
    → ((d : String) → o ≡ some d → has_alias gs d ≡ true)
    → or_default o g.alias ≡ some d
    → has_alias (gs ++ (g ∷ [])) d ≡ true
default_after_add gs none g d h e =
    ground (arith, has_alias-append gs g d, some_injective g.alias d e, eq_refl g.alias)
default_after_add gs (some c) g d h e =
    ground (arith, has_alias-append gs g d, some_injective c d e, h c refl)

default_kept : (o : Option String) (a : String) → or_default o a ≢ none
default_kept none a h = cc h
default_kept (some d) a h = cc h

default_left :
    (gs : List GuardEntry) (o : Option String) (a d : String)
    → ((d : String) → o ≡ some d → has_alias gs d ≡ true)
    → (if is_default o a then first_alias (remove_named gs a) else o) ≡ some d
    → has_alias (remove_named gs a) d ≡ true
default_left gs none a d h e = cc e
default_left gs (some c) a d h e = elim (Bool-cases (sym_eq c a)) [
  | inl same ↦ first_named (remove_named gs a) d (rw same at e)
  | inr other ↦
      let kept_one : some c ≡ some d = rw other at e in
      subst (λ (x : String). has_alias (remove_named gs a) x ≡ true) (some_injective c d kept_one)
        (other-remove_named gs a c other (h c refl))
]

nothing_left :
    (gs : List GuardEntry) (o : Option String) (a : String)
    → (o ≡ none → gs ≡ [])
    → (if is_default o a then first_alias (remove_named gs a) else o) ≡ none
    → remove_named gs a ≡ []
unfolding remove_named
nothing_left gs none a h e = rw (h refl) refl
nothing_left gs (some c) a h e = elim (Bool-cases (sym_eq c a)) [
  | inl same ↦ first_given (remove_named gs a) (rw same at e)
  | inr other ↦ absurd (ground arith)
]

module _ (reg : Registry) (v : IsValid reg) where
  grown-IsValid :
      (g : GuardEntry)
      → has_alias reg.guards g.alias ≡ false
      → has_address reg.guards g.address ≡ false
      → IsValid
          (record { guards = reg.guards ++ (g ∷ []); default = or_default reg.default g.alias })
  grown-IsValid g new_alias new_address = record {
    aliases = append-AliasesApart reg.guards g v.aliases new_alias;
    addresses = append-AddressesApart reg.guards g v.addresses new_address;
    default_named = λ d e. default_after_add reg.guards reg.default g d v.default_named e;
    default_given = λ e. absurd (default_kept reg.default g.alias e);
  }

  shrunk-IsValid :
      (a : String)
      → IsValid (record {
        guards = remove_named reg.guards a;
        default =
            if is_default reg.default a
            then first_alias (remove_named reg.guards a)
            else reg.default;
      })
  shrunk-IsValid a = record {
    aliases = remove_named-AliasesApart reg.guards a v.aliases;
    addresses = remove_named-AddressesApart reg.guards a v.addresses;
    default_named = λ d e. default_left reg.guards reg.default a d v.default_named e;
    default_given = λ e. nothing_left reg.guards reg.default a v.default_given e;
  }

  chosen-IsValid :
      (a : String) → has_alias reg.guards a ≡ true → IsValid (record reg { default = some a })
  chosen-IsValid a known = record {
    aliases = v.aliases;
    addresses = v.addresses;
    default_named =
        λ d e. subst (λ (x : String). has_alias reg.guards x ≡ true) (some_injective a d e) known;
    default_given = λ e. cc e;
  }

  edit-IsValid : (e : Edit) → IsValid (edit reg e)
  unfolding edit add_guard remove_guard set_default
  edit-IsValid (add g) =
      let grown : Registry = record {
        guards = reg.guards ++ (g ∷ []);
        default = or_default reg.default g.alias;
      } in
      elim (has_alias reg.guards g.alias)
          as (λ b.
            has_alias reg.guards g.alias ≡ b
            → IsValid (
                kept reg (
                  if b
                  then err alias_exists
                  else if has_address reg.guards g.address
                  then err address_registered
                  else ok grown))) [
                    | true ↦ λ _. v
                    | false ↦ λ new_alias.
                        elim (has_address reg.guards g.address)
                            as (λ b.
                              has_address reg.guards g.address ≡ b
                              → IsValid
                                  (kept reg (if b then err address_registered else ok grown))) [
                                    | true ↦ λ _. v
                                    | false ↦ λ new_address. grown-IsValid g new_alias new_address
                                  ]
                          refl
                  ]
        refl
  edit-IsValid (remove a) =
      let shrunk : Registry = record {
        guards = remove_named reg.guards a;
        default =
            if is_default reg.default a
            then first_alias (remove_named reg.guards a)
            else reg.default;
      } in
      elim (has_alias reg.guards a)
        as (λ b. IsValid (kept reg (if b then ok shrunk else err alias_not_found))) [
          | true ↦ shrunk-IsValid a
          | false ↦ v
        ]
  edit-IsValid (set a) =
      elim (has_alias reg.guards a)
          as (λ b.
            has_alias reg.guards a ≡ b
            → IsValid (
                kept reg
                  (if b then ok (record reg { default = some a }) else err alias_not_found))) [
                    | true ↦ λ known. chosen-IsValid a known
                    | false ↦ λ _. v
                  ]
        refl

edits-IsValid : (es : List Edit) (reg : Registry) → IsValid reg → IsValid (edits reg es)
unfolding edits
edits-IsValid [] reg v = v
edits-IsValid (e ∷ es) reg v = edits-IsValid es (edit reg e) (edit-IsValid reg v e)

address_named-found :
    (gs : List GuardEntry) (d : String)
    → has_alias gs d ≡ true
    → (address : String) × (address_named gs d ≡ some address) × (has_address gs address ≡ true)
unfolding has_alias address_named has_address
address_named-found [] d h = cc h
address_named-found (g ∷ gs) d h = elim (Bool-cases (sym_eq g.alias d)) [
  | inl same ↦ (g.address, rw same refl, ground (arith, eq_refl g.address))
  | inr other ↦
      let (address, found, there) = address_named-found gs d (rw other at h) in
      (address, rw other found, ground (arith, there))
]

-- Without `--guard`: an address that is registered, or the report that none is.
abbrev pub Resolves : Registry → Result RegistryError String → Type 0
Resolves reg (ok address) = has_address reg.guards address ≡ true
Resolves reg (err e) = (reg.guards ≡ []) × (e ≡ no_guard_registered)

resolve_guard-Resolves : (reg : Registry) → IsValid reg → Resolves reg (resolve_guard reg none)
unfolding resolve_guard
resolve_guard-Resolves reg v =
    elim reg.default
        as (λ o.
          reg.default ≡ o → Resolves reg (named_or_error (default_address reg o) reg.guards)) [
            | none ↦ λ e.
                subst (λ (gs : List GuardEntry). Resolves reg (named_or_error none gs))
                  (sym (v.default_given e)) (v.default_given e, refl)
            | some d ↦ λ e.
                let (address, found, there) =
                  address_named-found reg.guards d (v.default_named d e) in
                subst (λ (o : Option String). Resolves reg (named_or_error o reg.guards))
                  (sym found) there
          ]
      refl

-- From the empty registry, whatever is added, removed and set: no alias and no address stands twice,
-- and without `--guard` the tool takes the address of a registered guard, exactly where one is
-- registered.
pub resolve_guard-edits :
    (es : List Edit)
    → let reg = edits no_guards es in
      AliasesApart reg.guards × AddressesApart reg.guards × Resolves reg (resolve_guard reg none)
resolve_guard-edits es =
    let v = edits-IsValid es no_guards no_guards-IsValid in
    (v.aliases, v.addresses, resolve_guard-Resolves (edits no_guards es) v)
