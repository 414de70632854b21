-- ===== src/Prompt/Answers.antt =====
-- What the questions of internal/prompt/prompt.go can answer.
use slipgate.Prelude.{
  codes, ◌++◌, ℕ, zero, suc, ◌-◌, ◌≡◌, refl, true, false, inl, inr, List, [], ◌∷◌, some, Bytes,
  bytes_eq_iff, arith, Option-cases,
}
use slipgate.Prelude.Table.{store, load-store, text_eq}
use slipgate.Config.{is_empty, one_of}
use slipgate.Host.{on_option, Env, World, ok, pure, raise, ◌>>=◌, plain}
use slipgate.Host.Format.{atoi}
use slipgate.Host.Returns.{
  Returns, Returns-pure, Returns-raise, Returns-if, Returns-bind, returns_rules,
}
use slipgate.Actions.{Args, SelectOption, get_arg}
use slipgate.Actions.Inputs.{InputField, Spec}
use slipgate.Prompt.{
  option_at, named_option, numbered_option, chosen, option_values, select, collect_fields,
  collect_inputs, is_asked, collect_input,
}

-- the value is one of the options'
abbrev IsOffered : Bytes → List SelectOption → Type 0
IsOffered v options = one_of v (option_values options) ≡ true

option_at-IsOffered :
    (n : ℕ) (options : List SelectOption) (v : Bytes)
    → option_at n options ≡ some v
    → IsOffered v options
unfolding option_at one_of
option_at-IsOffered n [] v e = cc
option_at-IsOffered zero (o ∷ options) v e = ground (arith, bytes_eq_iff v o.value)
option_at-IsOffered (suc n) (o ∷ options) v e = ground (arith, option_at-IsOffered n options v)

named_option-IsOffered :
    (line : Bytes) (options : List SelectOption) (v : Bytes)
    → named_option line options ≡ some v
    → IsOffered v options
unfolding named_option one_of
named_option-IsOffered line [] v e = cc
named_option-IsOffered line (o ∷ options) v e =
    ground (arith, named_option-IsOffered line options v, bytes_eq_iff v o.value)

numbered_option-IsOffered :
    (line : Bytes) (options : List SelectOption) (v : Bytes)
    → numbered_option line options ≡ some v
    → IsOffered v options
unfolding numbered_option
numbered_option-IsOffered line options v e = elim (Option-cases (atoi line)) [
  | inl n ↦ ground arith
  | inr (i, n) ↦ ground (arith, option_at-IsOffered (i - 1) options v)
]

chosen-IsOffered :
    (line : Bytes) (options : List SelectOption) (v : Bytes)
    → chosen line options ≡ some v
    → IsOffered v options
unfolding chosen
chosen-IsOffered line options v e = ground (
  arith,
  option_at-IsOffered 0 options v,
  numbered_option-IsOffered line options v,
  named_option-IsOffered line options v,
)

chosen_or :
    (line : Bytes) (options : List SelectOption)
    → Returns
        (λ v. IsOffered v options)
        (on_option (chosen line options) (raise (plain (codes "invalid choice: " ++ line))) pure)
unfolding on_option
chosen_or line options = elim (Option-cases (chosen line options)) [
  | inl n ↦ rw n (Returns-raise (plain (codes "invalid choice: " ++ line)))
  | inr (v, n) ↦ rw n (Returns-pure v (chosen-IsOffered line options v n))
]

-- an input that is asked for has another key than an argument with a value
get_arg-store :
    (f : InputField) (k v v' : Bytes) (answers : Args)
    → is_empty v ≡ false
    → get_arg answers k ≡ v
    → is_asked f answers ≡ true
    → get_arg (store f.key v' answers) k ≡ v
unfolding get_arg is_asked
get_arg-store f k v v' answers n e asked =
    ground (arith, load-store f.key k v' answers, bytes_eq_iff f.key k)

module _ ⦃env : Env⦄ where
  select-Returns :
      (label : Bytes) (options : List SelectOption)
      → Returns (λ v. IsOffered v options) (select label options)
  unfolding select
  select-Returns label options = search (returns_rules, chosen_or)

  -- What `Select` returns is the value of one of its options, whatever is typed and however.
  pub select-IsOffered :
      (label : Bytes) (options : List SelectOption) (w : World) (v : Bytes)
      → (select label options w).0 ≡ ok v
      → one_of v (option_values options) ≡ true
  select-IsOffered label options w v e = (select-Returns label options).at w v e

  collect_fields-kept :
      (k v : Bytes) (fields : List InputField) (answers : Args)
      → is_empty v ≡ false
      → get_arg answers k ≡ v
      → Returns (λ r. get_arg r k ≡ v) (collect_fields fields answers)
  unfolding collect_fields
  collect_fields-kept k v [] answers n e = Returns-pure answers e
  collect_fields-kept k v (f ∷ fields) answers n e =
      Returns-if (is_asked f answers)
        (collect_input f >>= λ v'. collect_fields fields (store f.key v' answers))
        (collect_fields fields answers)
        (λ asked.
          Returns-bind (collect_input f) (λ v'. collect_fields fields (store f.key v' answers))
            (λ v'.
              collect_fields-kept k v fields (store f.key v' answers) n
                (get_arg-store f k v v' answers n e asked)))
        (λ _. collect_fields-kept k v fields answers n e)

  -- `CollectInputs` keeps an argument that was given with a value.
  pub collect_inputs-kept :
      (a : Spec) (existing : Args) (k : Bytes) (w : World) (answers : Args)
      → is_empty (get_arg existing k) ≡ false
      → (collect_inputs a existing w).0 ≡ ok answers
      → get_arg answers k ≡ get_arg existing k
  unfolding collect_inputs
  collect_inputs-kept a existing k w answers n e =
      (collect_fields-kept k (get_arg existing k) a.inputs existing n refl).at w answers e
