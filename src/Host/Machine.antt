-- ===== src/Host/Machine.antt =====
-- The files, the directories and the commands of the machine: what the handlers use of os, os/exec and
-- path/filepath.
use slipgate.Prelude.{
  Bool, true, false, ◌||◌, List, [], ◌∷◌, ◌++◌, Option, none, some, if◌then◌else◌, Bytes, codes,
  bytes_eq, has_prefix, length, drop, take, is_some,
}
use slipgate.Prelude.Table.{load, delete, store, text_eq}
use slipgate.Config.{is_empty}
use slipgate.Host.{
  ◌>>=◌, Action, Done, Env, Error, Event, Files, Outcome, World, attempt, cut, err, full, gets,
  made_dir, noted, ok, plain, pure, ran, refused, removed, removed_all, renamed, wrote,
}

-- filepath.Join(dir, name), for names without `.`, `..` or `//`
unfoldable pub path_join : Bytes → Bytes → Bytes
unfolding is_empty
path_join dir name = if is_empty name then dir else dir ++ (codes "/" ++ name)

-- is `path` the directory `dir`, or in it?
unfoldable pub is_under : Bytes → Bytes → Bool
is_under dir path = bytes_eq path dir || has_prefix path (dir ++ codes "/")

unfoldable pub files_outside : Bytes → Files → Files
unfolding is_under
files_outside dir [] = []
files_outside dir ((path, content) ∷ files) =
    let rest = files_outside dir files in if is_under dir path then rest else (path, content) ∷ rest

unfoldable pub dirs_outside : Bytes → List Bytes → List Bytes
unfolding is_under
dirs_outside dir [] = []
dirs_outside dir (d ∷ ds) =
    let rest = dirs_outside dir ds in if is_under dir d then rest else d ∷ rest

-- the name of `path` after `old` was renamed to `new`
unfoldable pub moved : Bytes → Bytes → Bytes → Bytes
unfolding is_under
moved old new path = if is_under old path then new ++ drop (length old) path else path

unfoldable pub moved_files : Bytes → Bytes → Files → Files
unfolding moved
moved_files old new [] = []
moved_files old new ((path, content) ∷ files) =
    (moved old new path, content) ∷ moved_files old new files

unfoldable pub moved_dirs : Bytes → Bytes → List Bytes → List Bytes
unfolding moved
moved_dirs old new [] = []
moved_dirs old new (d ∷ ds) = moved old new d ∷ moved_dirs old new ds

unfoldable pub member : Bytes → List Bytes → Bool
member d [] = false
member d (e ∷ ds) = bytes_eq e d || member d ds

-- os.ReadFile
unfoldable pub read_file : Bytes → Action Bytes
unfolding load
read_file path w = elim (load path w.files) [
  | none ↦ (err (plain (codes "open " ++ (path ++ codes ": no such file or directory"))), w)
  | some content ↦ (ok content, w)
]

-- `_, err := os.Stat(path); err == nil`
unfoldable pub stat : Bytes → Action Bool
unfolding load member
stat path w = (ok (is_some (load path w.files) || member path w.dirs), w)

module _ ⦃env : Env⦄ where
  -- cmd.Output()
  unfoldable pub command : List Bytes → World → Outcome × World
  unfolding noted
  command args w = let o = env.exec w args in (o, noted (ran args) (record w { files = o.files }))

  -- cmd.Run()
  unfoldable pub run : List Bytes → Action Done
  unfolding command
  run args w =
      let (o, w') = command args w in elim o.failure [ none ↦ (ok tt, w') | some e ↦ (err e, w') ]

  -- cmd.Output(), whose bytes come with the error
  unfoldable pub output : List Bytes → Action (Bytes × Option Error)
  unfolding command
  output args w = let (o, w') = command args w in (ok (o.output, o.failure), w')

  -- cmd.Run() == nil
  unfoldable pub succeeds : List Bytes → Action Bool
  succeeds args = do r ← attempt (run args); pure (elim r [ ok _ ↦ true | err e ↦ false ])

  -- `_, err := exec.LookPath(name); err == nil`
  unfoldable pub installed : Bytes → Action Bool
  installed name = gets (λ w. is_some (env.look_path w name))

  unfoldable pub write_file : Bytes → Bytes → Action Done
  unfolding noted store
  write_file path content w = elim (env.write w path content) [
    | full ↦ (ok tt, noted (wrote path content) (record w { files = store path content w.files }))
    | refused e ↦ (err e, w)
    | cut n e ↦ (
      err e,
      noted (wrote path (take n content))
          (record w { files = store path (take n content) w.files }),
    )
  ]

  -- a change of the directories and files that the machine may refuse
  unfoldable pub change : Event → (World → World) → Action Done
  unfolding noted
  change e f w = elim (env.denies w e) [
    | none ↦ (ok tt, noted e (f w))
    | some refusal ↦ (err refusal, w)
  ]

  unfoldable pub mkdir_all : Bytes → Action Done
  unfolding change member
  mkdir_all dir =
      change (made_dir dir)
        (λ w. record w { dirs = if member dir w.dirs then w.dirs else dir ∷ w.dirs })

  -- os.Remove of a file
  unfoldable pub remove_file : Bytes → Action Done
  unfolding change delete
  remove_file path = change (removed path) (λ w. record w { files = delete path w.files })

  unfoldable pub remove_all : Bytes → Action Done
  unfolding change files_outside dirs_outside
  remove_all dir =
      change (removed_all dir)
        (λ w. record w { files = files_outside dir w.files; dirs = dirs_outside dir w.dirs })

  -- what is at the new name is replaced
  unfoldable pub rename : Bytes → Bytes → Action Done
  unfolding change moved_files moved_dirs
  rename old new = change (renamed old new) (λ w. record w {
    files = moved_files old new (files_outside new w.files);
    dirs = moved_dirs old new (dirs_outside new w.dirs);
  })
