-- ===== src/Service.antt =====
-- internal/service/systemd.go, and internal/dnsrouter/service.go over it.
pub mod Frame
pub mod UnitFile
use slipgate.Prelude.{
  ℕ, Bool, true, false, not, ◌&&◌, List, [], ◌∷◌, ◌++◌, Option, none, some, if◌then◌else◌, Bytes,
  codes, bytes_eq, has_prefix, has_suffix, trim_suffix, trim_space, split, length, drop, is_some,
  lines_of,
}
use slipgate.Prelude.Table.{load, text_eq}
use slipgate.Config.{is_empty}
use slipgate.Host.{
  on_option, on_result, Action, Env, World, Files, Error, plain, Result, ok, err, Done, pure, raise,
  done, gets, attempt, ignore, lift, ◌>>=◌, ◌>>◌, error_text,
}
use slipgate.Host.Machine.{run, output, write_file, read_file, remove_file}

abbrev pub system_group : Bytes
system_group = codes "slipgate"

abbrev systemd_dir : Bytes
systemd_dir = codes "/etc/systemd/system/"

-- filepath.Join(systemdDir, name+".service")
unfoldable pub unit_path : Bytes → Bytes
unit_path name = systemd_dir ++ (name ++ codes ".service")

-- `TunnelServiceName`
abbrev pub tunnel_service_name : Bytes → Bytes
tunnel_service_name tag = codes "slipgate-" ++ tag

-- `Unit`
pub record ServiceUnit : Type 0 where
  pub name : Bytes
  pub description : Bytes
  pub exec_start : Bytes
  pub exec_reload : Bytes
  pub user : Bytes
  pub group : Bytes
  pub after : Bytes
  pub restart : Bytes
  pub working_dir : Bytes
  pub environment : List Bytes

-- `if value != "" { content += … }`
unfoldable pub optional_line : Bytes → Bytes → List Bytes
optional_line key value = if is_empty value then [] else (key ++ value) ∷ []

unfoldable pub environment_lines : List Bytes → List Bytes
environment_lines [] = []
environment_lines (env ∷ envs) = (codes "Environment=" ++ env) ∷ environment_lines envs

-- the lines of the file that `Create` writes, above and below that of the user
unfoldable pub lines_above : ServiceUnit → List Bytes
lines_above u =
    codes "[Unit]"
    ∷ (codes "Description=" ++ u.description)
    ∷ (codes "After=" ++ u.after)
    ∷ codes "StartLimitBurst=0"
    ∷ codes "StartLimitIntervalSec=0"
    ∷ []
    ∷ codes "[Service]"
    ∷ codes "Type=simple"
    ∷ []

unfoldable pub lines_below : ServiceUnit → List Bytes
lines_below u =
    (codes "Group=" ++ u.group)
    ∷ (codes "ExecStart=" ++ u.exec_start)
    ∷ (codes "Restart=" ++ u.restart)
    ∷ codes "RestartSec=5"
    ∷ codes "LogRateLimitIntervalSec=30"
    ∷ codes "LogRateLimitBurst=100"
    ∷ (optional_line (codes "ExecReload=") u.exec_reload
        ++ (optional_line (codes "WorkingDirectory=") u.working_dir
            ++ (environment_lines u.environment
                ++ ([] ∷ codes "[Install]" ∷ codes "WantedBy=multi-user.target" ∷ []))))

unfoldable pub unit_content : ServiceUnit → Bytes
unit_content u = lines_of (lines_above u ++ ((codes "User=" ++ u.user) ∷ lines_below u))

-- the value of the first line that is `User=` after its spaces
unfoldable pub user_of_lines : List Bytes → Bytes
user_of_lines [] = []
user_of_lines (line ∷ lines) =
    let rest = user_of_lines lines in
    let trimmed = trim_space line in
    if has_prefix trimmed (codes "User=") then drop 5 trimmed else rest

-- a unit file's text, or the empty text when it cannot be read
unfoldable pub unit_text : Bytes → World → Bytes
unit_text name w = elim (load (unit_path name) w.files) [ none ↦ [] | some content ↦ content ]

-- `ReadUnitFile`
unfoldable pub read_unit_file : Bytes → Action Bytes
read_unit_file name = gets (unit_text name)

-- `GetUser`
unfoldable pub get_unit_user : Bytes → Action Bytes
get_unit_user name = gets (λ w. user_of_lines (split (unit_text name w) b'\n'))

-- `Exists`; unit files are not directories
unfoldable pub exists : Bytes → Action Bool
exists name = gets (λ w. is_some (load (unit_path name) w.files))

abbrev pub systemctl : Bytes → Bytes → List Bytes
systemctl verb name = codes "systemctl" ∷ verb ∷ (name ++ codes ".service") ∷ []

abbrev pub router_service : Bytes
router_service = codes "slipgate-dnsrouter"

module _ ⦃env : Env⦄ where
  unfoldable pub daemon_reload : Action Done
  daemon_reload = run (codes "systemctl" ∷ codes "daemon-reload" ∷ [])

  -- `Create`
  unfoldable pub create : ServiceUnit → Action Done
  create u = do
    written ← attempt (write_file (unit_path u.name) (unit_content u))
    on_result written (λ _. daemon_reload)
        (λ e. raise (plain (codes "write unit file: " ++ error_text e)))

  -- `Start`: enables and starts
  unfoldable pub start : Bytes → Action Done
  start name = do run (systemctl (codes "enable") name); run (systemctl (codes "start") name)

  -- `Stop`: stops and disables a service that has a unit file
  unfoldable pub stop : Bytes → Action Done
  stop name = do
    found ← exists name
    if found
        then (do
          ignore (run (systemctl (codes "stop") name))
          ignore (run (systemctl (codes "disable") name)))
        else done

  unfoldable pub restart : Bytes → Action Done
  restart name = run (systemctl (codes "restart") name)

  unfoldable pub reload : Bytes → Action Done
  reload name = run (systemctl (codes "reload") name)

  -- `Status`: what systemctl printed, and its error
  unfoldable pub status : Bytes → Action (Bytes × Option Error)
  status name = do
    answer ← output (systemctl (codes "is-active") name)
    pure (trim_space answer.0, answer.1)

  -- `Logs`
  unfoldable pub logs : Bytes → Bytes → Action Bytes
  logs name lines = do
    answer ← output (
        codes "journalctl"
        ∷ codes "-u"
        ∷ (name ++ codes ".service")
        ∷ codes "-n"
        ∷ lines
        ∷ codes "--no-pager"
        ∷ [])
    on_option answer.1 (pure answer.0) (λ e. raise (plain (codes "journalctl: " ++ error_text e)))

  -- `Remove`
  unfoldable pub remove : Bytes → Action Done
  remove name = do
    found ← exists name
    if found then (remove_file (unit_path name) >> daemon_reload) else done

  -- the unit of `CreateRouterService`
  unfoldable pub router_unit : Bytes → ServiceUnit
  router_unit exec_path = record {
    name = router_service;
    description = codes "SlipGate DNS Router";
    exec_start = exec_path ++ codes " dnsrouter serve";
    exec_reload = [];
    user = codes "root";
    group = system_group;
    after = codes "network.target systemd-resolved.service";
    restart = codes "always";
    working_dir = [];
    environment = [];
  }

  -- `CreateRouterService`
  unfoldable pub create_router_service : Action Done
  create_router_service = do
    exec_path ← lift env.executable
    create (router_unit exec_path)
    start router_service

  -- `StartRouterService`, `StopRouterService` and `RestartRouterService`
  unfoldable pub start_router_service : Action Done
  start_router_service = start router_service

  unfoldable pub stop_router_service : Action Done
  stop_router_service = stop router_service

  unfoldable pub restart_router_service : Action Done
  restart_router_service = restart router_service
