-- ===== src/Host.antt =====
-- The machine that the commands of internal/handlers, internal/service, internal/router and
-- internal/transport work on: the configuration in memory, the files, and the log of what was
-- done. What the machine answers (systemctl, a full disk, the user at the prompt, the JSON
-- library) is a parameter, which may look at everything done before.
pub mod Format
pub mod Cases
pub mod Ensures
pub mod Frame
pub mod Keeps
pub mod Leads
pub mod Rename
pub mod Returns
pub mod Machine
use slipgate.Prelude.{
  ℕ, Bool, true, false, ◌||◌, ◌&&◌, not, List, [], ◌∷◌, ◌++◌, Option, none, some, ltb, ◌==◌,
  if◌then◌else◌, Bytes, codes, bytes_eq, has_prefix, length, drop, take, is_some,
}
use slipgate.Prelude.Table.{Table, load, delete, store, text_eq}
use slipgate.Config.{Config, is_empty}

-- `error`: of fmt.Errorf or a library, and `*actions.ActionError` without and with a cause
pub data Error : Type 0 where
  plain : Bytes → Error
  action : Bytes → Bytes → Bytes → Error
  caused : Bytes → Bytes → Error → Error

-- `e.Error()`
unfoldable pub error_text : Error → Bytes
error_text (plain text) = text
error_text (action id message hint) = id ++ (codes ": " ++ message)
error_text (caused id message cause) =
    id ++ (codes ": " ++ (message ++ (codes ": " ++ error_text cause)))

pub data Result (A : Type 0) : Type 0 where
  ok : A → Result A
  err : Error → Result A

-- the methods of `OutputWriter`
pub data Channel : Type 0 where
  info success warning failure print : Channel

pub data Event : Type 0 where
  ran : List Bytes → Event
  said : Channel → Bytes → Event
  printed : Bytes → Event
  asked : Bytes → Event
  wrote : Bytes → Bytes → Event
  made_dir : Bytes → Event
  removed : Bytes → Event
  removed_all : Bytes → Event
  renamed : Bytes → Bytes → Event

abbrev pub Files : Type 0
Files = Table Bytes Bytes

pub record World : Type 0 where
  pub config : Config
  pub files : Files
  pub dirs : List Bytes
  -- `proxy.RunAsUser`
  pub run_as : Bytes
  -- the latest first
  pub log : List Event

-- what a command answers: what it printed, its error, and the files after it
pub record Outcome : Type 0 where
  pub output : Bytes
  pub failure : Option Error
  pub files : Files

-- os.WriteFile writes all, or nothing, or stops after some bytes
pub data Write : Type 0 where
  full : Write
  refused : Error → Write
  cut : ℕ → Error → Write

-- standard input: the bytes a terminal will send, or one read of something else
pub data Typed : Type 0 where
  terminal : Bytes → Typed
  piped : Result Bytes → Typed

pub record Env : Type 0 where
  pub exec : World → List Bytes → Outcome
  pub write : World → Bytes → Bytes → Write
  -- the error of os.MkdirAll, os.Remove, os.RemoveAll or os.Rename, if there is one
  pub denies : World → Event → Option Error
  pub typed : World → Bytes → Typed
  pub executable : Result Bytes
  -- os.Geteuid() == 0
  pub is_root : Bool
  -- exec.LookPath, which fails when there is no such program
  pub look_path : World → Bytes → Option Bytes
  pub marshal : Config → Bytes
  pub unmarshal : Bytes → Result Config
  -- the i-th number below n that is drawn at a point of the program
  pub random : World → ℕ → ℕ → ℕ

abbrev pub Action : Type 0 → Type 0
Action A = World → Result A × World

abbrev pub Done : Type 0
Done = Unit {0}

infixl 5 ◌>>=◌ ◌>>◌
unfoldable pub ◌>>=◌ : {A B : Type 0} → Action A → (A → Action B) → Action B
◌>>=◌ m f w = let (r, w') = m w in elim r [ ok a ↦ f a w' | err e ↦ (err e, w') ]

-- the second action, once the first has not failed
abbrev pub ◌>>◌ : {R S : Type 0} → Action R → Action S → Action S
first >> second = first >>= λ _. second

module _ {A : Type 0} where
  unfoldable pub pure : A → Action A
  pure a w = (ok a, w)

  unfoldable pub raise : Error → Action A
  raise e w = (err e, w)

  unfoldable pub gets : (World → A) → Action A
  gets f w = (ok (f w), w)

  -- the error is looked at by the caller
  unfoldable pub attempt : Action A → Action (Result A)
  attempt m w = let (r, w') = m w in (ok r, w')

  unfoldable pub lift : Result A → Action A
  lift r w = (r, w)

-- a switch on an option, and on a result
unfoldable pub on_option : {A B : Type 0} → Option B → Action A → (B → Action A) → Action A
on_option none m f = m
on_option (some b) m f = f b

unfoldable pub on_result :
    {A B : Type 0} → Result B → (B → Action A) → (Error → Action A) → Action A
on_result (ok b) f g = f b
on_result (err e) f g = g e

unfoldable pub done : Action Done
unfolding pure
done = pure tt

-- for _, a := range as { … }, which a failure leaves
unfoldable pub each : {A : Type 0} → (A → Action Done) → List A → Action Done
each f [] = done
each f (a ∷ as_) = f a >> each f as_

-- `_ = m`
unfoldable pub ignore : {A : Type 0} → Action A → Action Done
unfolding attempt ◌>>=◌ done
ignore m = attempt m >> done

unfoldable pub modify : (World → World) → Action Done
modify f w = (ok tt, f w)

-- `proxy.RunAsUser = name`
unfoldable pub set_run_as : Bytes → Action Done
set_run_as name = modify (λ w. record w { run_as = name })

unfoldable pub noted : Event → World → World
noted e w = record w { log = e ∷ w.log }

unfoldable pub note : Event → Action Done
unfolding modify noted
note e = modify (noted e)

unfoldable pub say : Channel → Bytes → Action Done
unfolding note
say channel text = note (said channel text)

-- `cfg.…` of the configuration in memory
abbrev pub get_config : Action Config
get_config = gets (λ w. w.config)

unfoldable pub set_config : (Config → Config) → Action Done
unfolding modify
set_config f = modify (λ w. record w { config = f w.config })
