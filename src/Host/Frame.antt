-- ===== src/Host/Frame.antt =====
-- What the machine's answers leave alone: the configuration in memory.
use slipgate.Prelude.{◌≡◌, refl, List, Bytes, Option-cases, inl, inr}
use slipgate.Prelude.Table.{load, text_eq}
use slipgate.Config.{Config}
use slipgate.Host.{World, Env, Event, Channel, noted, say, note, set_run_as, set_config}
use slipgate.Host.Machine.{
  run, succeeds, installed, output, command, write_file, change, mkdir_all, remove_file, remove_all,
  rename, read_file,
}
use slipgate.Host.Cases.{Write-cases}
use slipgate.Host.Keeps.{Keeps, Keeps-modify, Keeps-gets, keeps_rules}

-- a property of the configuration in memory
pub record InMemory (P : Config → Type 0) (w : World) : Type 0 where
  pub holds : P w.config

module _ {P : Config → Type 0} where
  pub note-InMemory : (e : Event) → Keeps (InMemory P) (note e)
  unfolding note noted
  note-InMemory e = Keeps-modify (noted e) (λ w h. record { holds = h.holds })

  pub say-InMemory : (c : Channel) (text : Bytes) → Keeps (InMemory P) (say c text)
  unfolding say
  say-InMemory c text = search note-InMemory

  pub set_config-InMemory :
      (f : Config → Config) → ((c : Config) → P c → P (f c)) → Keeps (InMemory P) (set_config f)
  unfolding set_config
  set_config-InMemory f k = Keeps-modify _ (λ w h. record { holds = k w.config h.holds })

  pub set_run_as-InMemory : (name : Bytes) → Keeps (InMemory P) (set_run_as name)
  unfolding set_run_as
  set_run_as-InMemory name = Keeps-modify _ (λ w h. record { holds = h.holds })

  pub read_file-InMemory : (path : Bytes) → Keeps (InMemory P) (read_file path)
  unfolding read_file
  read_file-InMemory path = record {
    at = λ w h. elim (Option-cases (load path w.files)) [
      | inl e ↦ record { holds = rw (read_file, e) h.holds }
      | inr (x, e) ↦ record { holds = rw (read_file, e) h.holds }
    ];
  }

module _ ⦃env : Env⦄ {P : Config → Type 0} where
  pub run-InMemory : (args : List Bytes) → Keeps (InMemory P) (run args)
  unfolding run command noted
  run-InMemory args = record {
    at = λ w h. elim (Option-cases (env.exec w args).failure) [
      | inl e ↦ record { holds = rw (run, command, e) h.holds }
      | inr (x, e) ↦ record { holds = rw (run, command, e) h.holds }
    ];
  }

  pub succeeds-InMemory : (args : List Bytes) → Keeps (InMemory P) (succeeds args)
  unfolding succeeds
  succeeds-InMemory args = search (keeps_rules, run-InMemory)

  pub installed-InMemory : (name : Bytes) → Keeps (InMemory P) (installed name)
  unfolding installed
  installed-InMemory name = search keeps_rules

  pub output-InMemory : (args : List Bytes) → Keeps (InMemory P) (output args)
  unfolding output command noted
  output-InMemory args = record { at = λ w h. record { holds = h.holds } }

  pub write_file-InMemory : (path content : Bytes) → Keeps (InMemory P) (write_file path content)
  unfolding write_file noted
  write_file-InMemory path content = record {
    at = λ w h. elim (Write-cases (env.write w path content)) [
      | inl e ↦ record { holds = rw (write_file, e) h.holds }
      | inr (inl (x, e)) ↦ record { holds = rw (write_file, e) h.holds }
      | inr (inr (n, x, e)) ↦ record { holds = rw (write_file, e) h.holds }
    ];
  }

  -- a change of files and directories only
  change-InMemory :
      (e : Event) (f : World → World)
      → ((w : World) → (f w).config ≡ w.config)
      → Keeps (InMemory P) (change e f)
  unfolding change noted
  change-InMemory e f k = record {
    at = λ w h. elim (Option-cases (env.denies w e)) [
      | inl n ↦ record { holds = rw (change, n, k w) h.holds }
      | inr (x, n) ↦ record { holds = rw (change, n) h.holds }
    ];
  }

  pub mkdir_all-InMemory : (dir : Bytes) → Keeps (InMemory P) (mkdir_all dir)
  unfolding mkdir_all
  mkdir_all-InMemory dir = change-InMemory _ _ (λ w. refl)

  pub remove_file-InMemory : (path : Bytes) → Keeps (InMemory P) (remove_file path)
  unfolding remove_file
  remove_file-InMemory path = change-InMemory _ _ (λ w. refl)

  pub remove_all-InMemory : (dir : Bytes) → Keeps (InMemory P) (remove_all dir)
  unfolding remove_all
  remove_all-InMemory dir = change-InMemory _ _ (λ w. refl)

  pub rename-InMemory : (old new : Bytes) → Keeps (InMemory P) (rename old new)
  unfolding rename
  rename-InMemory old new = change-InMemory _ _ (λ w. refl)

pub ruleset machine_rules = (
  keeps_rules, note-InMemory, say-InMemory, set_run_as-InMemory, read_file-InMemory, run-InMemory,
  succeeds-InMemory, installed-InMemory, output-InMemory, write_file-InMemory, mkdir_all-InMemory,
  remove_file-InMemory, remove_all-InMemory, rename-InMemory,
)
