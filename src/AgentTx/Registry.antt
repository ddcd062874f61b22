-- ===== src/AgentTx/Registry.antt =====
-- The registry of guards in tools/agent-tx/src/main.rs: what its subcommands do to the stored list, and how
-- a missing `--guard` is resolved.
pub mod Valid
use Prim.Native.String.{String}
use stellar_agent_guard_cont.Common.{
  ℕ, Bool, true, false, not, ◌&&◌, ◌||◌, Option, none, some, List, [], ◌∷◌, ◌++◌, find, is_empty,
  is_some, if◌then◌else◌,
}
use stellar_agent_guard_cont.Types.Policy.{sym_eq}
use stellar_agent_guard_cont.AgentTx.Text.{Result, ok, err}

pub record GuardEntry : Type 0 where
  pub alias : String
  pub address : String
  pub admin : String
  pub added_at : ℕ

pub record Registry : Type 0 where
  pub guards : List GuardEntry
  pub default : Option String

-- `Registry::default()`, where there is no file yet
abbrev pub no_guards : Registry
no_guards = record { guards = []; default = none }

pub data RegistryError : Type 0 where
  alias_exists address_registered alias_not_found no_guard_registered no_default_set : RegistryError

unfoldable pub has_alias : List GuardEntry → String → Bool
has_alias [] a = false
has_alias (g ∷ gs) a = sym_eq g.alias a || has_alias gs a

unfoldable pub has_address : List GuardEntry → String → Bool
has_address [] a = false
has_address (g ∷ gs) a = sym_eq g.address a || has_address gs a

abbrev pub or_default : Option String → String → Option String
or_default none a = some a
or_default (some d) a = some d

-- The edit of `cmd_guards_add`, after the guard was verified.
unfoldable pub add_guard : Registry → GuardEntry → Result RegistryError Registry
add_guard reg g =
    if has_alias reg.guards g.alias
    then err alias_exists
    else if has_address reg.guards g.address
    then err address_registered
    else ok (record { guards = reg.guards ++ (g ∷ []); default = or_default reg.default g.alias })

-- `remove` of the first entry with this alias
unfoldable pub remove_named : List GuardEntry → String → List GuardEntry
remove_named [] a = []
remove_named (g ∷ gs) a = let rest = remove_named gs a in if sym_eq g.alias a then gs else g ∷ rest

abbrev pub first_alias : List GuardEntry → Option String
first_alias [] = none
first_alias (g ∷ gs) = some g.alias

abbrev pub is_default : Option String → String → Bool
is_default none a = false
is_default (some d) a = sym_eq d a

unfoldable pub remove_guard : Registry → String → Result RegistryError Registry
remove_guard reg a =
    let left = remove_named reg.guards a in
    if has_alias reg.guards a
    then ok (record {
      guards = left;
      default = if is_default reg.default a then first_alias left else reg.default;
    })
    else err alias_not_found

unfoldable pub set_default : Registry → String → Result RegistryError Registry
set_default reg a =
    if has_alias reg.guards a then ok (record reg { default = some a }) else err alias_not_found

-- `find(|g| g.alias == default)`, its address
unfoldable pub address_named : List GuardEntry → String → Option String
address_named [] a = none
address_named (g ∷ gs) a = if sym_eq g.alias a then some g.address else address_named gs a

abbrev pub named_or_error : Option String → List GuardEntry → Result RegistryError String
named_or_error (some address) guards = ok address
named_or_error none [] = err no_guard_registered
named_or_error none (g ∷ gs) = err no_default_set

abbrev pub default_address : Registry → Option String → Option String
default_address reg none = none
default_address reg (some d) = address_named reg.guards d

unfoldable pub resolve_guard : Registry → Option String → Result RegistryError String
resolve_guard reg (some g) = ok g
resolve_guard reg none = named_or_error (default_address reg reg.default) reg.guards

-- One subcommand on the stored registry; a refused one leaves it alone.
pub data Edit : Type 0 where
  add : GuardEntry → Edit
  remove set : String → Edit

abbrev pub kept : Registry → Result RegistryError Registry → Registry
kept reg (ok reg') = reg'
kept reg (err e) = reg

unfoldable pub edit : Registry → Edit → Registry
edit reg (add g) = kept reg (add_guard reg g)
edit reg (remove a) = kept reg (remove_guard reg a)
edit reg (set a) = kept reg (set_default reg a)

unfoldable pub edits : Registry → List Edit → Registry
edits reg [] = reg
edits reg (e ∷ es) = edits (edit reg e) es
