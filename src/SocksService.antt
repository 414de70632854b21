-- ===== src/SocksService.antt =====
-- internal/proxy/microsocks.go: the service of the SOCKS5 proxy and its credentials file.
pub mod Frame
pub mod Stored
use slipgate.Prelude.{
  Bool, true, false, not, ◌&&◌, ◌||◌, List, [], ◌∷◌, ◌++◌, Option, none, some, if◌then◌else◌, Bytes,
  codes, bytes_eq, contains,
}
use slipgate.Config.{UserConfig, is_empty}
use slipgate.Creds.{write_creds}
use slipgate.Host.{
  Action, Env, Error, plain, Result, ok, err, Done, printed, pure, raise, done, gets, attempt,
  ignore, lift, note, on_result, ◌>>=◌, ◌>>◌, error_text,
}
use slipgate.Host.Machine.{run, succeeds, write_file, mkdir_all, rename}
use slipgate.Service.{
  ServiceUnit, system_group, create, start, stop, restart, reload, remove, read_unit_file,
}

abbrev pub socks_service : Bytes
socks_service = codes "slipgate-socks5"

abbrev pub system_user : Bytes
system_user = codes "slipgate"

abbrev pub socks_user : Bytes
socks_user = codes "slipgate-socks"

abbrev pub creds_file : Bytes
creds_file = codes "/etc/slipgate/socks-users.conf"

abbrev pub creds_temp : Bytes
creds_temp = codes "/etc/slipgate/socks-users.conf.tmp"

-- the command line of the service
unfoldable pub serve_line : Bytes → Bytes → Bytes
serve_line exec_path address =
    exec_path
    ++ (codes " socks serve --addr "
        ++ (address ++ (codes " --port 1080 --creds-file " ++ creds_file)))

unfoldable pub socks_unit : Bytes → Bytes → ServiceUnit
socks_unit line user = record {
  name = socks_service;
  description = codes "SlipGate SOCKS5 proxy";
  exec_start = line;
  exec_reload = codes "/bin/kill -HUP $MAINPID";
  user = user;
  group = system_group;
  after = codes "network.target";
  restart = codes "always";
  working_dir = [];
  environment = [];
}

-- the unit file that is there runs this command as this user
unfoldable pub is_current : Bytes → Bytes → Bytes → Bool
is_current existing line user =
    not (is_empty existing)
    && (contains existing (codes "ExecStart=" ++ (line ++ codes "\n"))
        && contains existing (codes "User=" ++ (user ++ codes "\n")))

module _ ⦃env : Env⦄ where
  -- the owner of the file, which the service must be able to read
  unfoldable pub own_creds : Action Done
  own_creds =
      if env.is_root
      then (do
        owned ←
            succeeds
              (codes "chown" ∷ (system_user ++ (codes ":" ++ system_group)) ∷ creds_temp ∷ [])
        if owned
            then done
            else note (
                printed (
                  codes "warning: chown "
                  ++ (creds_temp
                      ++ codes " failed (SOCKS service may not be able to read creds)"))))
      else note (
          printed (
            codes "warning: not running as root, skipping chown of "
            ++ (creds_file ++ codes " (SOCKS service may not be able to read creds)")))

  -- `writeSocksCredsFile`
  unfoldable pub write_creds_file : List UserConfig → Action Done
  write_creds_file users = do
    mkdir_all (codes "/etc/slipgate")
    write_file creds_temp (write_creds users)
    own_creds
    rename creds_temp creds_file

  -- the unit is written, and the service is restarted
  unfoldable pub install_socks : ServiceUnit → Action Done
  install_socks u = do create u; ignore (restart u.name); start u.name

  -- SIGHUP when the unit is as wanted, or a new unit
  unfoldable pub refresh_socks : Bytes → ServiceUnit → Action Done
  refresh_socks existing u =
      if is_current existing u.exec_start u.user
      then (do r ← attempt (reload socks_service); on_result r (λ _. done) (λ e. install_socks u))
      else install_socks u

  -- `setupSOCKSMulti`
  unfoldable pub setup_socks_multi : Bytes → List UserConfig → Action Done
  setup_socks_multi address users = do
    exec_path ← lift env.executable
    written ← attempt (write_creds_file users)
    on_result written (λ _. done) (λ e. raise (plain (codes "write creds file: " ++ error_text e)))
    ignore (stop (codes "slipgate-microsocks"))
    ignore (remove (codes "slipgate-microsocks"))
    run_as ← gets (λ w. w.run_as)
    existing ← read_unit_file socks_service
    refresh_socks existing (
        socks_unit (serve_line exec_path address) (if is_empty run_as then system_user else run_as))

  -- `SetupSOCKS`, `SetupSOCKSWithUsers`, `SetupSOCKSExternalWithUsers`, and both for one user
  unfoldable pub setup_socks : Action Done
  setup_socks = setup_socks_multi (codes "127.0.0.1") []

  unfoldable pub setup_socks_with_users : List UserConfig → Action Done
  setup_socks_with_users users = setup_socks_multi (codes "127.0.0.1") users

  unfoldable pub setup_socks_external_with_users : List UserConfig → Action Done
  setup_socks_external_with_users users = setup_socks_multi (codes "0.0.0.0") users

  unfoldable pub setup_socks_with_auth : Bytes → Bytes → Action Done
  setup_socks_with_auth user password =
      setup_socks_multi (codes "127.0.0.1") (record { username = user; password = password } ∷ [])

  unfoldable pub setup_socks_external : Bytes → Bytes → Action Done
  setup_socks_external user password =
      setup_socks_multi (codes "0.0.0.0") (record { username = user; password = password } ∷ [])
