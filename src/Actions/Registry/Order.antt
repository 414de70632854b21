-- ===== src/Actions/Registry/Order.antt =====
-- What internal/actions/registry.go gives back of the actions that were registered.
use mathlib.Core.Path.{subst}
use slipgate.Prelude.{
  ◌≡◌, refl, sym, ap, ◌∙◌, true, List, [], ◌∷◌, ◌++◌, none, some, arith, if◌then◌else◌, Bytes,
  bytes_eq, bytes_eq_iff, bytes_eq_refl, is_some, Option-cases, inl, inr, All, append-nil,
  append_assoc,
}
use slipgate.Prelude.Table.{load-store, text_eq}
use slipgate.Actions.Inputs.{Spec}
use slipgate.Actions.Registry.{
  Registry, empty, register, get, entries_of, all_actions, register_all,
}

abbrev IsKnown : Registry → Bytes → Type 0
IsKnown r id = is_some (get id r) ≡ true

-- every identifier of the order is in the map
abbrev IsOrdered : Registry → Type 0
IsOrdered r = All (IsKnown r) r.order

module _ (a : Spec) (r r' : Registry) (e : register a r ≡ some r') where
  order-register : r'.order ≡ r.order ++ (a.id ∷ [])
  unfolding register
  order-register = ground arith

  get-register : (id : Bytes) → get id r' ≡ (if bytes_eq a.id id then some a else get id r)
  unfolding register get
  get-register id = ground (arith, load-store a.id id a r.entries)

  fresh-register : get a.id r ≡ none
  unfolding register get
  fresh-register = ground arith

  known-register : (id : Bytes) → IsKnown r id → get id r' ≡ get id r
  known-register id known = ground (arith, get-register id, fresh-register, bytes_eq_iff a.id id)

  entries_of-known : (ids : List Bytes) → All (IsKnown r) ids → entries_of ids r' ≡ entries_of ids r
  unfolding entries_of
  entries_of-known [] known = refl
  entries_of-known (id ∷ ids) (k, known) =
      ground (arith, known-register id k, entries_of-known ids known)

  new-register : get a.id r' ≡ some a
  new-register = rw (get-register a.id, bytes_eq_refl a.id) refl

  entries_of-register :
      (ids : List Bytes)
      → All (IsKnown r) ids
      → entries_of (ids ++ (a.id ∷ [])) r' ≡ entries_of ids r ++ (a ∷ [])
  unfolding entries_of
  entries_of-register [] known = rw (entries_of, new-register) refl
  entries_of-register (id ∷ ids) (k, known) = elim (Option-cases (get id r)) [
    | inl n ↦ cc
    | inr (s, n) ↦
        rw (entries_of, known-register id k, n) (ap (◌∷◌ s) (entries_of-register ids known))
  ]

  All-IsKnown-register :
      (ids : List Bytes) → All (IsKnown r) ids → All (IsKnown r') (ids ++ (a.id ∷ []))
  All-IsKnown-register [] known = (rw new-register refl, tt)
  All-IsKnown-register (id ∷ ids) (k, known) =
      (ap is_some (known-register id k) ∙ k, All-IsKnown-register ids known)

  IsOrdered-register : IsOrdered r → IsOrdered r'
  IsOrdered-register known =
      subst (All (IsKnown r')) (sym order-register) (All-IsKnown-register r.order known)

  all_actions-register : IsOrdered r → all_actions r' ≡ all_actions r ++ (a ∷ [])
  unfolding all_actions
  all_actions-register known =
      ap (λ ids. entries_of ids r') order-register ∙ entries_of-register r.order known

registered_after :
    (specs : List Spec) (r r' : Registry)
    → IsOrdered r
    → register_all specs r ≡ some r'
    → all_actions r' ≡ all_actions r ++ specs
unfolding register_all
registered_after [] r r' known e = ground (arith, append-nil (all_actions r))
registered_after (a ∷ specs) r r' known e = elim (Option-cases (register a r)) [
  | inl n ↦ ground arith
  | inr (s, n) ↦
      let rest : register_all specs s ≡ some r' = ground arith in
      registered_after specs s r' (IsOrdered-register a r s n known) rest
      ∙ rw (all_actions-register a r s n known, append_assoc) refl
]

-- When no call of `Register` panics, `All` gives back the actions in the order in which they were
-- registered.
pub all_actions-register_all :
    (specs : List Spec) (r : Registry) → register_all specs empty ≡ some r → all_actions r ≡ specs
unfolding all_actions entries_of
all_actions-register_all specs r e = registered_after specs empty r tt e
