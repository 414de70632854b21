-- ===== src/Handlers/Share/Frame.antt =====
-- The commands of internal/handlers that only show something leave the configuration in memory alone.
use slipgate.Config.{Config, TunnelConfig, BackendConfig}
use slipgate.Prelude.{Bytes}
use slipgate.ClientConfig.{Library}
use slipgate.ClientConfig.Generate.{UriOptions}
use slipgate.Host.{Env}
use slipgate.Host.Keeps.{Keeps}
use slipgate.Host.Frame.{InMemory}
use slipgate.Actions.{Args}
use slipgate.Handlers.Invariant.{handler_rules}
use slipgate.Handlers.Router.{show_route, handle_router_status}
use slipgate.Handlers.Share.{ask_mode, ask_user, share, handle_tunnel_share, handle_config_export}

module _ ⦃env : Env⦄ {P : Config → Type 0} where
  show_route-InMemory :
      (active : Bytes) (t : TunnelConfig) → Keeps (InMemory P) (show_route active t)
  unfolding show_route
  show_route-InMemory active t = search handler_rules depth 8

  pub handle_router_status-InMemory : Keeps (InMemory P) handle_router_status
  unfolding handle_router_status
  handle_router_status-InMemory = search (handler_rules, show_route-InMemory) depth 16

  pub handle_config_export-InMemory : Keeps (InMemory P) handle_config_export
  unfolding handle_config_export
  handle_config_export-InMemory = search handler_rules

module _ ⦃env : Env⦄ {P : Config → Type 0} (lib : Library) where
  ask_mode-InMemory : (args : Args) (t : TunnelConfig) → Keeps (InMemory P) (ask_mode lib args t)
  unfolding ask_mode
  ask_mode-InMemory args t = search handler_rules

  ask_user-InMemory : (c : Config) (opts : UriOptions) → Keeps (InMemory P) (ask_user lib c opts)
  unfolding ask_user
  ask_user-InMemory c opts = search handler_rules

  share-InMemory :
      (args : Args) (c : Config) (t : TunnelConfig) (b : BackendConfig)
      → Keeps (InMemory P) (share lib args c t b)
  unfolding share
  share-InMemory args c t b = search (handler_rules, ask_mode-InMemory, ask_user-InMemory)

  pub handle_tunnel_share-InMemory :
      (args : Args) → Keeps (InMemory P) (handle_tunnel_share lib args)
  unfolding handle_tunnel_share
  handle_tunnel_share-InMemory args = search (handler_rules, share-InMemory) depth 9
