-- ===== src/Actions.antt =====
-- internal/actions: action.go, errors.go, ids.go, options.go and registry.go.
pub mod Ids
pub mod Inputs
pub mod Registry
use slipgate.Prelude.{
  Bool, List, [], ◌∷◌, ◌++◌, Option, none, some, Bytes, codes, bytes_eq, if◌then◌else◌,
}
use slipgate.Prelude.Table.{Table, load, text_eq}
use slipgate.Host.{Error, action, caused, Action, raise}

-- the arguments of a `Context`
abbrev pub Args : Type 0
Args = Table Bytes Bytes

-- `(*Context).GetArg`
unfoldable pub get_arg : Args → Bytes → Bytes
get_arg args key = elim (load key args) [ none ↦ [] | some v ↦ v ]

-- `SelectOption`
pub record SelectOption : Type 0 where
  pub value : Bytes
  pub label : Bytes

-- `return NewError(id, message, nil)`
unfoldable pub fail : {A : Type 0} → Bytes → Bytes → Action A
fail id message = raise (action id message [])

-- `return NewErrorWithHint(id, message, hint, nil)`
unfoldable pub fail_with_hint : {A : Type 0} → Bytes → Bytes → Bytes → Action A
fail_with_hint id message hint = raise (action id message hint)

-- `return NewError(id, message, err)`
unfoldable pub fail_because : {A : Type 0} → Bytes → Bytes → Error → Action A
fail_because id message cause = raise (caused id message cause)
