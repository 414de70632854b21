-- ===== src/Service/UnitFile.antt =====
-- The unit files of internal/service/systemd.go, written and read back.
use slipgate.Prelude.{
  ℕ, ◌≡◌, ◌≢◌, refl, ap, ◌∙◌, Bool, true, false, List, [], ◌∷◌, ◌++◌, some, arith, Bytes, codes,
  bytes_eq_refl, has_prefix, trim_space, split, is_space, lines_of, IsLine, IsWord, split-line,
  trim_right-word, trim_space-head, IsWord-IsLine, IsLine-append, literal-IsLine, is_line, All,
  Option-cases, inl, inr,
}
use slipgate.Prelude.Table.{load, load-store, text_eq}
use slipgate.Host.{on_result, Env, World, ok, raise, gets, attempt, ◌>>=◌, noted}
use slipgate.Host.Machine.{write_file, run, command}
use slipgate.Service.{
  ServiceUnit, lines_above, lines_below, unit_content, user_of_lines, unit_text, get_unit_user,
  create, unit_path, daemon_reload,
}

abbrev pub is_user_line : Bytes → Bool
is_user_line line = has_prefix (trim_space line) (codes "User=")

user_of_lines-skip :
    (line : Bytes) (lines : List Bytes)
    → is_user_line line ≡ false
    → user_of_lines (line ∷ lines) ≡ user_of_lines lines
unfolding user_of_lines
user_of_lines-skip line lines n = rw n refl

-- a line that begins with another letter
other_key : (c : ℕ) (s : Bytes) → is_space c ≡ false → c ≢ 85 → is_user_line (c ∷ s) ≡ false
unfolding has_prefix
other_key c s n ne = rw (trim_space-head c s n) (ground arith)

user_line :
    (user : Bytes) → IsWord user → trim_space (codes "User=" ++ user) ≡ codes "User=" ++ user
unfolding is_space
user_line user w =
    trim_space-head 85 (codes "ser=" ++ user) refl
    ∙ ap (◌∷◌ 85) (trim_right-word (codes "ser=" ++ user) (refl, (refl, (refl, (refl, w)))))

-- the unit's text fields are one line each, and the user is a word
pub record IsPlainUnit (u : ServiceUnit) : Type 0 where
  pub description_line : IsLine u.description
  pub after_line : IsLine u.after
  pub user_word : IsWord u.user

-- lines that are read over in search of the user
abbrev IsSkipped : Bytes → Type 0
IsSkipped line = IsLine line × (is_user_line line ≡ false)

user_found :
    (skipped : List Bytes) (user : Bytes) (rest : List Bytes)
    → All IsSkipped skipped
    → IsWord user
    → user_of_lines (split (lines_of (skipped ++ ((codes "User=" ++ user) ∷ rest))) 10) ≡ user
unfolding lines_of user_of_lines has_prefix is_line
user_found [] user rest sk w =
    rw
      (
        split-line (codes "User=" ++ user) (lines_of rest) (
            IsLine-append (codes "User=") user (literal-IsLine (codes "User=") refl)
              (IsWord-IsLine user w)),
        user_line user w,
      )
      refl
user_found (l ∷ skipped) user rest ((line, other), sk) w =
    rw (split-line l (lines_of (skipped ++ ((codes "User=" ++ user) ∷ rest))) line, other)
      (user_found skipped user rest sk w)

literal : (line : Bytes) → is_line line ≡ true → is_user_line line ≡ false → IsSkipped line
literal line e n = (literal-IsLine line e, n)

keyed :
    (c : ℕ) (key value : Bytes)
    → is_line (c ∷ key) ≡ true
    → is_space c ≡ false
    → c ≢ 85
    → IsLine value
    → IsSkipped ((c ∷ key) ++ value)
keyed c key value e n ne v =
    (IsLine-append (c ∷ key) value (literal-IsLine (c ∷ key) e) v, other_key c (key ++ value) n ne)

lines_above-IsSkipped : (u : ServiceUnit) → IsPlainUnit u → All IsSkipped (lines_above u)
unfolding lines_above is_line is_space has_prefix trim_space
lines_above-IsSkipped u p = (
  literal (codes "[Unit]") refl refl,
  (
    keyed 68 (codes "escription=") u.description refl refl (λ e. ground arith) p.description_line,
    (
      keyed 65 (codes "fter=") u.after refl refl (λ e. ground arith) p.after_line,
      (
        literal (codes "StartLimitBurst=0") refl refl,
        (
          literal (codes "StartLimitIntervalSec=0") refl refl,
          (
            literal [] refl refl,
            (literal (codes "[Service]") refl refl, (literal (codes "Type=simple") refl refl, tt)),
          ),
        ),
      ),
    ),
  ),
)

user_of_unit :
    (u : ServiceUnit) → IsPlainUnit u → user_of_lines (split (unit_content u) b'\n') ≡ u.user
unfolding unit_content
user_of_unit u p =
    user_found (lines_above u) u.user (lines_below u) (lines_above-IsSkipped u p) p.user_word

unit_text-loaded :
    (name content : Bytes) (w : World)
    → load (unit_path name) w.files ≡ some content
    → unit_text name w ≡ content
unfolding unit_text
unit_text-loaded name content w e = rw (unit_text, e) refl

module _ ⦃env : Env⦄ where
  -- The systemctl of the machine leaves the unit files as they are.
  abbrev pub LeavesFiles : Type 0
  LeavesFiles =
      (w : World) (args : List Bytes) → (env.exec w (codes "systemctl" ∷ args)).files ≡ w.files

  run-files :
      LeavesFiles
      → (args : List Bytes) (w : World) → (run (codes "systemctl" ∷ args) w).1.files ≡ w.files
  unfolding run command noted
  run-files leaves args w = elim (Option-cases (env.exec w (codes "systemctl" ∷ args)).failure) [
    | inl e ↦ rw e (leaves w args)
    | inr (x, e) ↦ rw e (leaves w args)
  ]

  written :
      (path content : Bytes) (w : World)
      → (write_file path content w).0 ≡ ok tt
      → load path (write_file path content w).1.files ≡ some content
  unfolding write_file noted
  written path content w e =
      ground (arith, load-store path path content w.files, bytes_eq_refl path)

  daemon_reload-files : LeavesFiles → (w : World) → (daemon_reload w).1.files ≡ w.files
  unfolding daemon_reload
  daemon_reload-files leaves w = run-files leaves (codes "daemon-reload" ∷ []) w

  create-content :
      LeavesFiles
      → (u : ServiceUnit) (w : World) → (create u w).0 ≡ ok tt
      → load (unit_path u.name) (create u w).1.files ≡ some (unit_content u)
  unfolding create attempt ◌>>=◌ raise on_result
  create-content leaves u w e =
      let path = unit_path u.name in
      let content = unit_content u in
      ground
        (arith, written path content w, daemon_reload-files leaves (write_file path content w).1)

  -- The user that `GetUser` reads from a unit file is the user of the unit that `Create` wrote it
  -- for, when `Create` succeeds, systemctl leaves the unit files as they are, and the unit's
  -- description and order are one line each and the user's name has no spaces.
  pub get_unit_user-create :
      LeavesFiles
      → (u : ServiceUnit) (w : World) → IsPlainUnit u
      → (create u w).0 ≡ ok tt
      → (get_unit_user u.name (create u w).1).0 ≡ ok u.user
  unfolding get_unit_user gets
  get_unit_user-create leaves u w p e =
      let text : unit_text u.name (create u w).1 ≡ unit_content u =
        unit_text-loaded u.name (unit_content u) (create u w).1 (create-content leaves u w e) in
      ap (λ (t : Bytes). ok (user_of_lines (split t b'\n'))) text ∙ ap ok (user_of_unit u p)
