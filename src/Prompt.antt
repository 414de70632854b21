-- ===== src/Prompt.antt =====
-- internal/prompt/prompt.go, over `readLine` of readline.go.
pub mod Frame
pub mod Line
pub mod Answers
use slipgate.Prelude.{
  ℕ, zero, suc, ◌+◌, ◌-◌, Bool, true, false, ◌&&◌, ◌||◌, not, List, [], ◌∷◌, ◌++◌, Option, none,
  some, ltb, leb, ◌==◌, if◌then◌else◌, Bytes, codes, bytes_eq, to_lower, trim_space, split, length,
  get_elem?, decimal,
}
use slipgate.Prelude.Table.{Table, load, store, text_eq}
use slipgate.Config.{is_empty, one_of}
use slipgate.Host.{
  on_option, Action, Env, World, Event, asked, printed, Result, ok, err, plain, Done, Typed,
  terminal, piped, noted, note, pure, raise, done, ◌>>=◌, ◌>>◌,
}
use slipgate.Host.Format.{atoi}
use slipgate.Actions.{Args, SelectOption, get_arg}
use slipgate.Actions.Inputs.{InputField, Spec}
use slipgate.Prompt.Line.{read_loop, key_next, blank}

-- `sanitize`: printable ASCII only
unfoldable pub sanitize : Bytes → Bytes
sanitize [] = []
sanitize (c ∷ s) = let rest = sanitize s in if leb 32 c && ltb c 127 then c ∷ rest else rest

-- strings.TrimRight(s, "\r\n")
unfoldable pub trim_newlines : Bytes → Bytes
trim_newlines [] = []
trim_newlines (c ∷ s) =
    let rest = trim_newlines s in
    if is_empty rest && (c == b'\r' || c == b'\n') then [] else c ∷ rest

-- `readSimple`, given what the one read returned
unfoldable pub read_simple : Result Bytes → Result Bytes
read_simple (ok s) = ok (sanitize (trim_newlines s))
read_simple (err e) = err e

-- strings.EqualFold, on ASCII
unfoldable pub equal_fold : Bytes → Bytes → Bool
equal_fold a b = bytes_eq (to_lower a) (to_lower b)

-- fmt.Printf("    %d) %s\n", i+1, opt.Label) for each, from number `n` on
unfoldable pub show_options : ℕ → List SelectOption → Action Done
show_options n [] = done
show_options n (o ∷ options) = do
  note (printed (codes "    " ++ (decimal n ++ (codes ") " ++ (o.label ++ codes "\n")))))
  show_options (n + 1) options

-- the option whose value the text names
unfoldable pub named_option : Bytes → List SelectOption → Option Bytes
named_option line [] = none
named_option line (o ∷ options) =
    if equal_fold line o.value then some o.value else named_option line options

unfoldable pub option_at : ℕ → List SelectOption → Option Bytes
option_at n options = elim (get_elem? options n) [ none ↦ none | some o ↦ some o.value ]

-- n >= 1 && n <= len(options), with the value
unfoldable pub numbered_option : Bytes → List SelectOption → Option Bytes
numbered_option line options = elim (atoi line) [
  | none ↦ none
  | some n ↦ if leb 1 n then option_at (n - 1) options else none
]

-- what a line chooses: the first option when it is blank, a number, or a value
unfoldable pub chosen : Bytes → List SelectOption → Option Bytes
chosen line options =
    if is_empty line && ltb 0 (length options)
    then option_at 0 options
    else elim (numbered_option line options) [ some v ↦ some v | none ↦ named_option line options ]

abbrev pub option_values : List SelectOption → List Bytes
option_values [] = []
option_values (o ∷ options) = o.value ∷ option_values options

-- the parts of the line of `MultiSelect`, with what was taken so far, in order
unfoldable pub picked : List Bytes → List SelectOption → List Bytes → List Bytes
picked [] options result = result
picked (part ∷ parts) options result =
    let p = trim_space part in
    let skip = picked parts options result in
    elim (atoi p) [
      | none ↦ if equal_fold p (codes "all") then option_values options else skip
      | some n ↦
          if n == length options + 1
          then option_values options
          else elim (if leb 1 n then option_at (n - 1) options else none) [
            | none ↦ skip
            | some v ↦
                let take = picked parts options (result ++ (v ∷ [])) in
                if one_of v result then skip else take
          ]
    ]

-- `Confirm` on what was typed
unfoldable pub says_yes : Bytes → Bool
says_yes line =
    let answer = trim_space (to_lower line) in
    bytes_eq answer (codes "y") || bytes_eq answer (codes "yes")

-- `ConfirmYes` on what was typed
unfoldable pub says_not_no : Bytes → Bool
says_not_no line =
    let answer = trim_space (to_lower line) in
    if is_empty answer
    then true
    else not (bytes_eq answer (codes "n")) && not (bytes_eq answer (codes "no"))

-- is the input asked for, given the answers so far?
unfoldable pub is_asked : InputField → Args → Bool
is_asked f answers =
    is_empty (get_arg answers f.key)
    && (not f.cli_only
        && (is_empty f.depends_on
            || (not (is_empty (get_arg answers f.depends_on))
                && (length f.depends_on_values == 0
                    || one_of (get_arg answers f.depends_on) f.depends_on_values))))

module _ ⦃env : Env⦄ where
  unfoldable pub read_line : Bytes → Action Bytes
  read_line prompt w = (
    elim (env.typed w prompt) [
      | terminal input ↦ read_loop key_next blank input
      | piped r ↦ read_simple r
    ],
    noted (asked prompt) w,
  )

  -- `String`
  unfoldable pub string : Bytes → Bytes → Action Bytes
  string label default = do
    typed ← read_line (
        if is_empty default
        then codes "  " ++ (label ++ codes ": ")
        else codes "  " ++ (label ++ (codes " [" ++ (default ++ codes "]: "))))
    let line = sanitize (trim_space typed)
    pure (if is_empty line then default else line)

  -- `Select`
  unfoldable pub select : Bytes → List SelectOption → Action Bytes
  select label options = do
    note (printed (codes "\n  " ++ (label ++ codes ":\n")))
    show_options 1 options
    typed ←
        read_line
          (codes "  Choice [" ++ (elim options [ [] ↦ [] | o ∷ _ ↦ o.label ] ++ codes "]: "))
    let line = sanitize (trim_space typed)
    on_option (chosen line options) (raise (plain (codes "invalid choice: " ++ line))) (λ v. pure v)

  -- `MultiSelect`
  unfoldable pub multi_select : Bytes → List SelectOption → Action (List Bytes)
  multi_select label options = do
    note (printed (codes "\n  " ++ (label ++ codes ":\n")))
    show_options 1 options
    note (printed (codes "    " ++ (decimal (length options + 1) ++ codes ") All\n")))
    typed ← read_line (codes "  Choice (comma-separated, e.g. 1,3,4): ")
    pure (picked (split (sanitize (trim_space typed)) b',') options [])

  -- `Confirm`
  unfoldable pub confirm : Bytes → Action Bool
  confirm message = do
    typed ← read_line (codes "  " ++ (message ++ codes " [y/N]: "))
    pure (says_yes typed)

  -- `ConfirmYes`
  unfoldable pub confirm_yes : Bytes → Action Bool
  confirm_yes message = do
    typed ← read_line (codes "  " ++ (message ++ codes " [Y/n]: "))
    pure (says_not_no typed)

  -- the value of one input of `CollectInputs`
  unfoldable pub collect_input : InputField → Action Bytes
  collect_input f =
      if ltb 0 (length f.options)
      then select f.label f.options
      else string f.label f.default >>= λ v.
          if f.required && is_empty v
          then raise (plain (f.label ++ codes " is required"))
          else pure v

  -- the loop of `CollectInputs`
  unfoldable pub collect_fields : List InputField → Args → Action Args
  collect_fields [] answers = pure answers
  collect_fields (f ∷ fields) answers =
      if is_asked f answers
      then (collect_input f >>= λ v. collect_fields fields (store f.key v answers))
      else collect_fields fields answers

  -- `CollectInputs`
  unfoldable pub collect_inputs : Spec → Args → Action Args
  collect_inputs a existing = collect_fields a.inputs existing
