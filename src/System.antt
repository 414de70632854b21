-- ===== src/System.antt =====
-- internal/system/user.go: the users of the system, and the block of sshd_config for them.
pub mod SshConfig
pub mod Frame
use slipgate.Prelude.{
  ℕ, zero, suc, ◌+◌, Bool, true, false, not, ◌&&◌, ◌||◌, List, [], ◌∷◌, ◌++◌, Option, none, some,
  ltb, leb, ◌==◌, if◌then◌else◌, Bytes, codes, bytes_eq, join, split, trim_space, length, take,
  drop, get_or,
}
use slipgate.Prelude.Table.{load, text_eq}
use slipgate.Host.{
  Action, Env, Error, plain, Result, ok, err, Done, World, pure, raise, done, gets, attempt, ignore,
  on_result, on_option, ◌>>=◌, ◌>>◌, error_text,
}
use slipgate.Host.Machine.{run, succeeds, output, write_file, read_file, mkdir_all}
use slipgate.System.SshConfig.{
  SshUpdate, leave, rewrite, ssh_update, needs_block, match_block, ssh_config,
}

abbrev pub ssh_group : Bytes
ssh_group = codes "slipgate-ssh"

abbrev password_chars : Bytes
password_chars = codes "abcdefghijklmnopqrstuvwxyzABCDEFGHIJKLMNOPQRSTUVWXYZ0123456789"

module _ ⦃env : Env⦄ where
  -- `run`, with the output of the command in the error
  unfoldable pub run_loud : List Bytes → Action Done
  run_loud args = do
    answer ← output args
    on_option answer.1 done (λ e. raise (
        plain (
          get_or args 0 []
          ++ (codes " ["
              ++ (join (drop 1 args) (codes " ")
                  ++ (codes "]: "
                      ++ (error_text e ++ (codes " (" ++ (trim_space answer.0 ++ codes ")")))))))))

  -- fmt.Errorf(text + ": %w", err)
  unfoldable pub wrapped : Action Done → Bytes → Action Done
  wrapped m text = do
    r ← attempt m
    on_result r (λ _. done) (λ e. raise (plain (text ++ (codes ": " ++ error_text e))))

  -- `userExists` and `groupExists`
  unfoldable pub user_exists : Bytes → Action Bool
  user_exists name = succeeds (codes "id" ∷ name ∷ [])

  unfoldable pub group_exists : Bytes → Action Bool
  group_exists name = succeeds (codes "getent" ∷ codes "group" ∷ name ∷ [])

  unfoldable pub ensure_group : Bytes → Action Done
  ensure_group name = do
    there ← group_exists name
    if there
        then done
        else wrapped (run_loud (codes "groupadd" ∷ codes "--system" ∷ name ∷ []))
            (codes "create group " ++ name)

  -- `EnsureUser`
  unfoldable pub ensure_user : Action Done
  ensure_user = do
    ensure_group (codes "slipgate")
    ensure_group ssh_group
    there ← user_exists (codes "slipgate")
    if there
        then done
        else wrapped
            (run_loud (
              codes "useradd"
              ∷ codes "--system"
              ∷ codes "--no-create-home"
              ∷ codes "--shell"
              ∷ codes "/usr/sbin/nologin"
              ∷ codes "--gid"
              ∷ codes "slipgate"
              ∷ codes "slipgate"
              ∷ []))
            (codes "create user slipgate")

  -- `RemoveUser`
  unfoldable pub remove_system_user : Action Done
  remove_system_user = do
    ignore (run_loud (codes "userdel" ∷ codes "slipgate" ∷ []))
    ignore (run_loud (codes "groupdel" ∷ ssh_group ∷ []))
    ignore (run_loud (codes "groupdel" ∷ codes "slipgate" ∷ []))

  -- `EnsureDir`
  unfoldable pub ensure_dir : Bytes → Bytes → Action Done
  ensure_dir path owner = do
    mkdir_all path
    run_loud (codes "chown" ∷ codes "-R" ∷ (owner ++ codes ":slipgate") ∷ path ∷ [])

  unfoldable pub append_block : Bytes → Action Done
  append_block content =
      if needs_block content then write_file ssh_config (content ++ match_block) else done

  unfoldable pub reload_service : Bytes → Action Done
  reload_service svc = do
    r ← attempt (run_loud (codes "systemctl" ∷ codes "reload" ∷ svc ∷ []))
    on_result r (λ _. done) (λ e. run_loud (codes "systemctl" ∷ codes "restart" ∷ svc ∷ []))

  unfoldable pub is_active : Bytes → Action Bool
  is_active svc = succeeds (codes "systemctl" ∷ codes "is-active" ∷ (svc ++ codes ".service") ∷ [])

  -- for _, svc := range …: reload the first service that is active, or restart it
  unfoldable pub reload_first : List Bytes → Action Done
  reload_first [] = done
  reload_first (svc ∷ svcs) =
      is_active svc >>= λ active. if active then reload_service svc else reload_first svcs

  -- the file is written, checked, and read by the daemon
  unfoldable pub apply_update : SshUpdate → Action Done
  apply_update leave = done
  apply_update (rewrite content changed) = do
    if changed then write_file ssh_config content else done
    append_block content
    wrapped (run_loud (codes "sshd" ∷ codes "-t" ∷ [])) (codes "sshd config validation failed")
    reload_first (codes "sshd" ∷ codes "ssh" ∷ [])

  -- `ensureSSHMatchGroup`
  unfoldable pub ensure_match_group : Action Done
  ensure_match_group = do content ← read_file ssh_config; apply_update (ssh_update content)

  unfoldable pub create_ssh_user : Bytes → Action Done
  create_ssh_user name = do
    there ← user_exists name
    if there
        then done
        else wrapped
            (run_loud (
              codes "useradd"
              ∷ codes "--system"
              ∷ codes "--no-create-home"
              ∷ codes "--shell"
              ∷ codes "/bin/false"
              ∷ codes "--gid"
              ∷ ssh_group
              ∷ name
              ∷ []))
            (codes "create user")

  -- `AddSSHUser`; what chpasswd reads stands behind `<`
  unfoldable pub add_ssh_user : Bytes → Bytes → Action Done
  add_ssh_user name password = do
    ensure_group ssh_group
    create_ssh_user name
    wrapped (run (codes "chpasswd" ∷ codes "<" ∷ (name ++ (codes ":" ++ password)) ∷ []))
        (codes "set password")
    ensure_match_group

  -- `RemoveSSHUser`
  unfoldable pub remove_ssh_user : Bytes → Action Done
  remove_ssh_user name = do
    ignore (run_loud (codes "pkill" ∷ codes "-KILL" ∷ codes "-u" ∷ name ∷ []))
    run_loud (codes "userdel" ∷ codes "-f" ∷ name ∷ [])

  -- the bytes of a password, from the i-th on
  unfoldable pub draw : ℕ → ℕ → World → Bytes
  draw zero i w = []
  draw (suc n) i w =
      get_or password_chars (env.random w i (length password_chars)) b'a' ∷ draw n (i + 1) w

  -- `GeneratePassword`
  unfoldable pub generate_password : ℕ → Action Bytes
  generate_password n = gets (draw n 0)

-- the loop of `ListSSHUsers` over the lines of /etc/group
unfoldable pub members_of : List Bytes → List Bytes
members_of [] = []
members_of (line ∷ lines) =
    let rest = members_of lines in
    let parts = split line b':' in
    if leb 4 (length parts) && bytes_eq (get_or parts 0 []) ssh_group
    then (if length (get_or parts 3 []) == 0 then [] else split (get_or parts 3 []) b',')
    else rest

-- `ListSSHUsers`
unfoldable pub list_ssh_users : Action (List Bytes)
list_ssh_users = do
  content ← read_file (codes "/etc/group")
  pure (members_of (split content b'\n'))
