-- ===== src/Actions/Registry.antt =====
-- internal/actions/registry.go: the registry of actions, a map and the order of registration.
pub mod Order
use slipgate.Prelude.{
  ℕ, ◌≡◌, refl, Bool, true, false, List, [], ◌∷◌, ◌++◌, Option, none, some, Bytes, bytes_eq,
  is_some, if◌then◌else◌,
}
use slipgate.Prelude.Table.{Table, load, store, text_eq}
use slipgate.Actions.Inputs.{Spec, router_actions, system_actions, tunnel_actions}

pub record Registry : Type 0 where
  pub entries : Table Bytes Spec
  pub order : List Bytes

abbrev pub empty : Registry
empty = record { entries = []; order = [] }

-- `Register`; `none` is the panic on an identifier that is registered already
unfoldable pub register : Spec → Registry → Option Registry
unfolding load store
register a r =
    if is_some (load a.id r.entries)
    then none
    else some (record { entries = store a.id a r.entries; order = r.order ++ (a.id ∷ []) })

-- `Get`
unfoldable pub get : Bytes → Registry → Option Spec
unfolding load
get id r = load id r.entries

-- the entries of these identifiers; Go's nil of a missing one is left out
unfoldable pub entries_of : List Bytes → Registry → List Spec
unfolding get
entries_of [] r = []
entries_of (id ∷ ids) r = elim (get id r) [
  | none ↦ entries_of ids r
  | some a ↦ a ∷ entries_of ids r
]

-- `All`
unfoldable pub all_actions : Registry → List Spec
unfolding entries_of
all_actions r = entries_of r.order r

unfoldable pub in_category : Bytes → List Spec → List Spec
in_category category [] = []
in_category category (a ∷ specs) =
    let rest = in_category category specs in if bytes_eq a.category category then a ∷ rest else rest

-- `ByCategory`
unfoldable pub by_category : Bytes → Registry → List Spec
unfolding in_category all_actions
by_category category r = in_category category (all_actions r)

-- one call of `Register` after another
unfoldable pub register_all : List Spec → Registry → Option Registry
unfolding register
register_all [] r = some r
register_all (a ∷ specs) r = elim (register a r) [ none ↦ none | some r' ↦ register_all specs r' ]

-- the `init` functions, which Go runs in the order of the files' names
unfoldable pub registered : Option Registry
unfolding register_all
registered = register_all (router_actions ++ (system_actions ++ tunnel_actions)) empty
