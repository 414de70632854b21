-- ===== src/Handlers/Reachable.antt =====
-- What a sequence of commands of internal/handlers makes of the configuration in memory.
use slipgate.Prelude.{Bytes}
use slipgate.Config.Validation.{Invalid, BadPassword}
use slipgate.ClientConfig.{Library}
use slipgate.Host.{World, Env}
use slipgate.Actions.{Args}
use slipgate.Keys.{Crypto}
use slipgate.Handlers.Packages.{Packages}
use slipgate.Handlers.Remove.{handle_tunnel_remove}
use slipgate.Handlers.Router.{handle_router_mode, handle_router_switch, handle_router_status}
use slipgate.Handlers.Share.{handle_tunnel_share, handle_config_export}
use slipgate.Handlers.Edit.Handle.{handle_tunnel_edit}
use slipgate.Handlers.Users.Bulk.{handle_system_users}
use slipgate.Handlers.System.{handle_system_mtu, handle_system_restart}
use slipgate.Handlers.Lifecycle.{
  handle_tunnel_start, handle_tunnel_stop, handle_tunnel_status, handle_tunnel_logs,
}
use slipgate.Handlers.Add.Both.{handle_tunnel_add}

module _ ⦃env : Env⦄ (lib : Library) (crypto : Crypto) (message_of : Invalid → Bytes)
    (password_message : BadPassword → Bytes) (packages : Packages) where
  -- One command, which may fail at any of its calls.
  pub data Step : World → World → Type 0 where
    added :
        (args : Args) (w : World)
        → Step w (handle_tunnel_add lib crypto message_of password_message packages args w).1
    removed : (args : Args) (w : World) → Step w (handle_tunnel_remove args w).1
    mode_changed : (args : Args) (w : World) → Step w (handle_router_mode args w).1
    switched : (args : Args) (w : World) → Step w (handle_router_switch args w).1
    users_handled :
        (args : Args) (w : World)
        → Step w (handle_system_users lib message_of password_message packages args w).1
    edited : (args : Args) (w : World) → Step w (handle_tunnel_edit crypto message_of args w).1
    mtu_set : (args : Args) (w : World) → Step w (handle_system_mtu args w).1
    restarted : (w : World) → Step w (handle_system_restart w).1
    started : (args : Args) (w : World) → Step w (handle_tunnel_start args w).1
    stopped : (args : Args) (w : World) → Step w (handle_tunnel_stop args w).1
    status_shown : (args : Args) (w : World) → Step w (handle_tunnel_status args w).1
    logs_shown : (args : Args) (w : World) → Step w (handle_tunnel_logs args w).1
    router_shown : (w : World) → Step w (handle_router_status w).1
    shared : (args : Args) (w : World) → Step w (handle_tunnel_share lib args w).1
    exported : (w : World) → Step w (handle_config_export w).1

  pub data Reaches : World → World → Type 0 where
    here : (w : World) → Reaches w w
    after : {w w' w'' : World} → Reaches w w' → Step w' w'' → Reaches w w''
