-- ===== src/Prompt/Frame.antt =====
-- The questions of internal/prompt leave the configuration in memory alone.
use slipgate.Prelude.{ℕ, ◌+◌, List, [], ◌∷◌, Bytes}
use slipgate.Config.{Config}
use slipgate.Host.{Env, noted}
use slipgate.Host.Keeps.{Keeps, Keeps-done, Keeps-bind}
use slipgate.Host.Frame.{InMemory, note-InMemory, machine_rules}
use slipgate.Actions.{SelectOption}
use slipgate.Prompt.{show_options, read_line, string, select, confirm, confirm_yes}

module _ {P : Config → Type 0} where
  show_options-InMemory :
      (n : ℕ) (options : List SelectOption) → Keeps (InMemory P) (show_options n options)
  unfolding show_options
  show_options-InMemory n [] = Keeps-done
  show_options-InMemory n (o ∷ options) =
      Keeps-bind _ (λ _. show_options (n + 1) options) (note-InMemory _)
        (λ _. show_options-InMemory (n + 1) options)

module _ ⦃env : Env⦄ {P : Config → Type 0} where
  read_line-InMemory : (prompt : Bytes) → Keeps (InMemory P) (read_line prompt)
  unfolding read_line noted
  read_line-InMemory prompt = record { at = λ w h. record { holds = h.holds } }

  pub string-InMemory : (label default : Bytes) → Keeps (InMemory P) (string label default)
  unfolding string
  string-InMemory label default = search (machine_rules, read_line-InMemory)

  pub select-InMemory :
      (label : Bytes) (options : List SelectOption) → Keeps (InMemory P) (select label options)
  unfolding select
  select-InMemory label options = search (machine_rules, read_line-InMemory, show_options-InMemory)

  pub confirm-InMemory : (message : Bytes) → Keeps (InMemory P) (confirm message)
  unfolding confirm
  confirm-InMemory message = search (machine_rules, read_line-InMemory)

  pub confirm_yes-InMemory : (message : Bytes) → Keeps (InMemory P) (confirm_yes message)
  unfolding confirm_yes
  confirm_yes-InMemory message = search (machine_rules, read_line-InMemory)

pub ruleset prompt_rules =
    (string-InMemory, select-InMemory, confirm-InMemory, confirm_yes-InMemory)
