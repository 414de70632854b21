-- ===== src/Handlers/Users.antt =====
-- internal/handlers/system_sshusers.go: adding, listing, editing and removing users.
pub mod Bulk
pub mod Routed
pub mod Whole
use slipgate.Prelude.{
  ℕ, zero, suc, ◌+◌, ◌-◌, Bool, true, false, not, ◌&&◌, ◌||◌, List, [], ◌∷◌, ◌++◌, Option, none,
  some, ltb, leb, ◌==◌, if◌then◌else◌, Bytes, codes, bytes_eq, trim_space, length, decimal,
  has_prefix, drop,
}
use slipgate.Config.{
  TunnelConfig, UserConfig, BackendConfig, Config, is_empty, transport_dnstt, transport_vaydns,
}
use slipgate.Config.Store.{get_user, get_backend, add_user, remove_user}
use slipgate.Config.Validation.{BadPassword, validate_password}
use slipgate.ClientConfig.{Library}
use slipgate.ClientConfig.Generate.{UriOptions, generate_uri}
use slipgate.ClientConfig.Fields.{client_mode_noizdns}
use slipgate.Host.{
  Action, Env, Error, plain, Result, ok, err, Done, info, success, warning, print, pure, raise,
  done, attempt, ignore, each, on_option, on_result, get_config, set_config, set_run_as, say, ◌>>=◌,
  ◌>>◌, error_text,
}
use slipgate.Host.Format.{quote}
use slipgate.Actions.{Args, SelectOption, get_arg, fail, fail_because}
use slipgate.Actions.Ids.{system_users}
use slipgate.Prompt.{string, select, confirm}
use slipgate.System.{add_ssh_user, remove_ssh_user, generate_password}
use slipgate.SocksService.{setup_socks, setup_socks_with_users, socks_user}
use slipgate.Handlers.{save, save_or_fail}
use slipgate.Handlers.Lifecycle.{noizdns_tag}
use slipgate.Handlers.Share.{user_options}
use slipgate.Handlers.Packages.{Packages}

-- the public key of a tunnel that has one to show
unfoldable pub shown_key : TunnelConfig → Bytes
shown_key t =
    let vaydns =
      if bytes_eq t.transport transport_vaydns
      then elim t.vaydns [ none ↦ [] | some v ↦ v.public_key ]
      else [] in
    if bytes_eq t.transport transport_dnstt
    then elim t.dnstt [
      | none ↦ vaydns
      | some d ↦ if is_empty d.public_key then vaydns else d.public_key
    ]
    else vaydns

-- the client modes of a transport
unfoldable pub client_modes : TunnelConfig → List Bytes
client_modes t =
    if bytes_eq t.transport transport_dnstt
    then codes "dnstt" ∷ client_mode_noizdns ∷ []
    else [] ∷ []

-- `proxy.RunAsUser` when WARP is on
unfoldable pub run_socks_as : Config → Action Done
run_socks_as c = if c.warp then set_run_as socks_user else done

-- if err := …; err != nil { out.Warning(text + err.Error()) }
unfoldable pub warn : Action Done → Bytes → Action Done
warn m text = do r ← attempt m; on_result r (λ _. done) (λ e. say warning (text ++ error_text e))

-- return NewError(SystemUsers, err.Error(), nil)
unfoldable pub as_user_error : {A : Type 0} → Action A → Action A
as_user_error m = do r ← attempt m; on_result r pure (λ e. fail system_users (error_text e))

module _ (lib : Library) where
  -- one client link of `showUserConfigs`
  unfoldable pub show_link : TunnelConfig → BackendConfig → UserConfig → Bytes → Action Done
  show_link t b u mode = do
    say print (
        codes "  ["
        ++ ((if bytes_eq mode client_mode_noizdns then noizdns_tag t.tag else t.tag) ++ codes "]"))
    say print (
        codes "  "
        ++ generate_uri lib t (some b)
            (record { client_mode = mode; username = u.username; password = u.password }))
    say print []

  unfoldable pub show_tunnel_links : Config → UserConfig → TunnelConfig → Action Done
  show_tunnel_links c u t = on_option (get_backend c t.backend) done (λ b. do
    if is_empty (shown_key t)
        then done
        else say print (codes "  [" ++ (t.tag ++ (codes "] Public Key: " ++ shown_key t)))
    each (show_link t b u) (client_modes t))

  -- `showUserConfigs`
  unfoldable pub show_user_configs : Config → UserConfig → Action Done
  show_user_configs c u = each (show_tunnel_links c u) c.tunnels

module _ ⦃env : Env⦄ (lib : Library) (message_of : BadPassword → Bytes) (packages : Packages) where
  -- strings.TrimSpace of the argument, or of what is typed
  unfoldable pub ask_username : Bytes → Action Bytes
  ask_username given = do
    name ← (if is_empty given then string (codes "Username") [] else pure given)
    pure (trim_space name)

  -- a password that is typed is checked; a blank one is replaced
  unfoldable pub check_password : Bytes → Action Bytes
  check_password typed =
      if is_empty typed
      then (do
        password ← generate_password 16
        say info (codes "Generated password: " ++ password)
        pure password)
      else on_option (validate_password typed) (pure typed) (λ e. raise (plain (message_of e)))

  -- the credentials of the SOCKS proxy
  unfoldable pub update_socks : Action Done
  update_socks = do
    c ← get_config
    run_socks_as c
    warn (setup_socks_with_users c.users) (codes "Failed to update SOCKS proxy auth: ")

  unfoldable pub update_warp : Action Done
  update_warp = do
    c ← get_config
    if c.warp
        then warn (packages.refresh_routing c) (codes "Failed to update WARP routing: ")
        else done

  -- the system user, then the configuration, then its file
  unfoldable pub store_user : UserConfig → Action Done
  store_user u = do
    made ← attempt (add_ssh_user u.username u.password)
    on_result made (λ _. done)
        (λ e. raise (plain (codes "failed to create SSH user: " ++ error_text e)))
    set_config (λ c. add_user c u)
    saved ← attempt save
    on_result saved (λ _. done)
        (λ e. raise (plain (codes "failed to save config: " ++ error_text e)))

  unfoldable pub announce_user : UserConfig → Action Done
  announce_user u = do
    say success (codes "User " ++ (quote u.username ++ codes " added (SSH + SOCKS)"))
    c ← get_config
    if length c.tunnels == 0
        then done
        else (do say print []; say info (codes "Configs for this user:"); show_user_configs lib c u)

  unfoldable pub create_named : Bytes → Action Done
  create_named name = do
    typed ← string (codes "Password (leave blank to generate)") []
    password ← check_password typed
    let u : UserConfig = record { username = name; password = password }
    store_user u
    update_socks
    update_warp
    announce_user u

  unfoldable pub check_new_user : Bytes → Config → Action Done
  check_new_user name c =
      if is_empty name
      then raise (plain (codes "username is required"))
      else on_option (get_user c name) done
          (λ u. raise (plain (codes "user " ++ (quote name ++ codes " already exists"))))

  -- `createUserInteractive`
  unfoldable pub create_user_interactive : Bytes → Action Done
  create_user_interactive given = do
    name ← ask_username given
    c ← get_config
    check_new_user name c
    create_named name

  -- the branch "list" with users
  unfoldable pub list_user : UserConfig → Action Done
  list_user u = do
    say print []
    say print (codes "  User: " ++ u.username)
    say print (codes "  Password: " ++ u.password)
    say print []
    c ← get_config
    if length c.tunnels == 0
        then say print (codes "  No tunnels configured")
        else show_user_configs lib c u

  unfoldable pub show_username : UserConfig → Action Done
  show_username u = say print (codes "  " ++ u.username)

  unfoldable pub list_users : Config → Action Done
  list_users c = do
    say print []
    each show_username c.users
    say print []
    name ← select (codes "Show configs for user") (user_options c.users)
    on_option (get_user c name) (fail system_users (codes "user not found")) list_user

  -- the branch "remove"
  unfoldable pub remove_named : Bytes → Action Done
  remove_named name = do
    removed ← attempt (remove_ssh_user name)
    on_result removed (λ _. done)
        (λ e. fail_because system_users (codes "failed to remove SSH user: " ++ error_text e) e)
    set_config (λ c. (remove_user c name).0)
    c ← get_config
    run_socks_as c
    ignore (if length c.users == 0 then setup_socks else setup_socks_with_users c.users)
    save_or_fail system_users
    say success (codes "User " ++ (quote name ++ codes " removed"))
    update_warp

  unfoldable pub remove_branch : Bytes → Action Done
  remove_branch given = do
    name ← ask_username given
    if is_empty name then fail system_users (codes "username is required") else remove_named name

  -- the branch "edit_password"
  unfoldable pub pick_user : Bytes → Config → Action Bytes
  pick_user given c =
      if not (is_empty given)
      then pure given
      else if length c.users == 0
      then fail system_users (codes "no users configured")
      else select (codes "User to edit") (user_options c.users)

  unfoldable pub known_user : Bytes → Config → Action Done
  known_user name c =
      if is_empty name
      then fail system_users (codes "username is required")
      else on_option (get_user c name)
          (fail system_users (codes "user " ++ (quote name ++ codes " not found"))) (λ u. done)

  unfoldable pub ask_password : Args → Action Bytes
  ask_password args = do
    let given = trim_space (get_arg args (codes "password"))
    typed ←
        (if is_empty given
          then string (codes "New password (leave blank to generate)") []
          else pure given)
    as_user_error (check_password typed)

  -- the password of a user that exists is set
  unfoldable pub set_password : UserConfig → Action Done
  set_password u = do
    set ← attempt (add_ssh_user u.username u.password)
    on_result set (λ _. done)
        (λ e. fail_because system_users (codes "failed to update SSH password: " ++ error_text e) e)
    set_config (λ c. add_user c u)
    save_or_fail system_users
    update_socks
    say success (codes "Password updated for " ++ quote u.username)

  -- show, _ := prompt.Confirm(…)
  unfoldable pub offer_configs : UserConfig → Config → Action Done
  offer_configs u c = if length c.tunnels == 0 then done else (do
    shown ← attempt (confirm (codes "Show updated tunnel configs?"))
    on_result shown (λ yes. if yes then (say print [] >> show_user_configs lib c u) else done)
        (λ e. done))

  unfoldable pub edit_password : Args → Bytes → Action Done
  edit_password args given = do
    c ← get_config
    picked ← pick_user given c
    let name = trim_space picked
    known_user name c
    password ← ask_password args
    set_password (record { username = name; password = password })
    c' ← get_config
    offer_configs (record { username = name; password = password }) c'
