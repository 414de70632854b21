-- ===== src/Handlers/Users/Routed.antt =====
-- The user handlers of internal/handlers/system_sshusers.go leave the tunnels and the route alone.
use slipgate.Prelude.{Bytes, Bool-cases, inl, inr}
use slipgate.Config.{Config, TunnelConfig, BackendConfig, UserConfig}
use slipgate.Config.Store.{add_user, replace_key, user_key}
use slipgate.Config.Validation.{BadPassword}
use slipgate.ClientConfig.{Library}
use slipgate.Host.{Env, Action, Done}
use slipgate.Host.Keeps.{Keeps}
use slipgate.Host.Frame.{InMemory, set_config-InMemory, set_run_as-InMemory}
use slipgate.System.Frame.{system_rules}
use slipgate.SocksService.Frame.{socks_rules}
use slipgate.Handlers.Packages.{Packages, IsQuiet, refresh_routing-InMemory}
use slipgate.Handlers.Routed.{IsRouted}
use slipgate.Handlers.Invariant.{handler_rules, save-InMemory}
use slipgate.Handlers.Users.{
  run_socks_as, warn, show_link, show_tunnel_links, show_user_configs, ask_username, check_password,
  update_socks, update_warp, store_user, announce_user, create_named, check_new_user,
  create_user_interactive,
}

pub add_user-IsRouted : (u : UserConfig) (c : Config) → IsRouted c → IsRouted (add_user c u)
unfolding add_user
add_user-IsRouted u c h = elim (Bool-cases (replace_key user_key u c.users).1) [
  | inl e ↦ rw e (record { distinct = h.distinct; active = h.active; mode = h.mode })
  | inr e ↦ rw e (record { distinct = h.distinct; active = h.active; mode = h.mode })
]

module _ {P : Config → Type 0} where
  pub run_socks_as-InMemory : (c : Config) → Keeps (InMemory P) (run_socks_as c)
  unfolding run_socks_as
  run_socks_as-InMemory c = search (handler_rules, set_run_as-InMemory)

  pub warn-InMemory :
      (m : Action Done) (text : Bytes) → Keeps (InMemory P) m → Keeps (InMemory P) (warn m text)
  unfolding warn
  warn-InMemory m text k = search handler_rules

module _ {P : Config → Type 0} (lib : Library) where
  show_link-InMemory :
      (t : TunnelConfig) (b : BackendConfig) (u : UserConfig) (mode : Bytes)
      → Keeps (InMemory P) (show_link lib t b u mode)
  unfolding show_link
  show_link-InMemory t b u mode = search handler_rules

  show_tunnel_links-InMemory :
      (c : Config) (u : UserConfig) (t : TunnelConfig)
      → Keeps (InMemory P) (show_tunnel_links lib c u t)
  unfolding show_tunnel_links
  show_tunnel_links-InMemory c u t = search (handler_rules, show_link-InMemory)

  pub show_user_configs-InMemory :
      (c : Config) (u : UserConfig) → Keeps (InMemory P) (show_user_configs lib c u)
  unfolding show_user_configs
  show_user_configs-InMemory c u = search (handler_rules, show_tunnel_links-InMemory)

module _ ⦃env : Env⦄ (lib : Library) (message_of : BadPassword → Bytes) (packages : Packages)
    (quiet : IsQuiet packages) where
  pub ask_username-IsRouted :
      (given : Bytes) → Keeps (InMemory IsRouted) (ask_username lib message_of packages given)
  unfolding ask_username
  ask_username-IsRouted given = search handler_rules

  pub check_password-IsRouted :
      (typed : Bytes) → Keeps (InMemory IsRouted) (check_password lib message_of packages typed)
  unfolding check_password
  check_password-IsRouted typed = search (handler_rules, system_rules)

  pub update_socks-IsRouted : Keeps (InMemory IsRouted) (update_socks lib message_of packages)
  unfolding update_socks
  update_socks-IsRouted = search (handler_rules, socks_rules, run_socks_as-InMemory, warn-InMemory)

  pub update_warp-IsRouted : Keeps (InMemory IsRouted) (update_warp lib message_of packages)
  unfolding update_warp
  update_warp-IsRouted =
      let refresh = refresh_routing-InMemory {P = IsRouted} packages quiet in
      search (handler_rules, warn-InMemory, refresh)

  store_user-IsRouted :
      (u : UserConfig) → Keeps (InMemory IsRouted) (store_user lib message_of packages u)
  unfolding store_user
  store_user-IsRouted u =
      search (handler_rules, system_rules, set_config-InMemory, add_user-IsRouted, save-InMemory)
        depth 9

  announce_user-IsRouted :
      (u : UserConfig) → Keeps (InMemory IsRouted) (announce_user lib message_of packages u)
  unfolding announce_user
  announce_user-IsRouted u = search (handler_rules, show_user_configs-InMemory) depth 9

  create_named-IsRouted :
      (name : Bytes) → Keeps (InMemory IsRouted) (create_named lib message_of packages name)
  unfolding create_named
  create_named-IsRouted name =
      search
        (
          handler_rules, check_password-IsRouted, update_socks-IsRouted, update_warp-IsRouted,
          store_user-IsRouted, announce_user-IsRouted,
        )
        depth 9

  check_new_user-IsRouted :
      (name : Bytes) (c : Config)
      → Keeps (InMemory IsRouted) (check_new_user lib message_of packages name c)
  unfolding check_new_user
  check_new_user-IsRouted name c = search handler_rules

  pub create_user_interactive-IsRouted :
      (given : Bytes)
      → Keeps (InMemory IsRouted) (create_user_interactive lib message_of packages given)
  unfolding create_user_interactive
  create_user_interactive-IsRouted given =
      search (handler_rules, ask_username-IsRouted, check_new_user-IsRouted, create_named-IsRouted)
