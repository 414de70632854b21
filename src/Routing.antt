-- ===== src/Routing.antt =====
-- internal/router: mode.go, names.go and router.go.
pub mod Frame
use slipgate.Prelude.{
  ℕ, Bool, true, false, not, ◌&&◌, ◌||◌, List, [], ◌∷◌, ◌++◌, Option, none, some, if◌then◌else◌,
  Bytes, codes, bytes_eq,
}
use slipgate.Config.{TunnelConfig, Config, is_empty, is_dns_tunnel, has_managed_service}
use slipgate.Config.Ports.{next_available_port}
use slipgate.Config.Store.{get_tunnel}
use slipgate.Host.{
  on_option, on_result, each, Action, Env, Error, plain, Result, ok, err, Done, pure, raise, done,
  attempt, ignore, ◌>>=◌, ◌>>◌, error_text,
}
use slipgate.Host.Format.{quote}
use slipgate.Service.{
  tunnel_service_name, start, stop, restart, status, router_service, create_router_service,
  start_router_service, restart_router_service,
}

-- `ServiceName` and `AllocatePort`
abbrev pub service_name : Bytes → Bytes
service_name tag = tunnel_service_name tag

unfoldable pub allocate_port : Config → Option ℕ
unfolding next_available_port
allocate_port c = next_available_port c

module _ ⦃env : Env⦄ where
  -- status == "active", whatever the error
  unfoldable pub router_active : Action Bool
  router_active = do answer ← status router_service; pure (bytes_eq answer.0 (codes "active"))

  -- `ensureRouterRunning`
  unfoldable pub ensure_router_running : Action Done
  ensure_router_running = do
    answer ← status router_service
    if bytes_eq answer.0 (codes "active") && elim answer.1 [ none ↦ true | some e ↦ false ]
        then done
        else (create_router_service >> start_router_service)

  -- one round of the loop of `SwitchMode`
  unfoldable pub restart_tunnel : TunnelConfig → Action Done
  restart_tunnel t =
      if has_managed_service t && t.enabled
      then (do
        restarted ← attempt (restart (tunnel_service_name t.tag))
        on_result restarted (λ _. done)
            (λ e.
              raise (plain (codes "restart tunnel " ++ (t.tag ++ (codes ": " ++ error_text e))))))
      else done

  -- `SwitchMode`, which does not look at the mode
  unfoldable pub switch_mode : Config → Action Done
  switch_mode cfg = each restart_tunnel cfg.tunnels >> ensure_router_running

  -- stops the service of the tunnel that was active, if it is another one with a service
  unfoldable pub stop_active : Config → Bytes → Action Done
  stop_active cfg tag =
      if not (is_empty cfg.route.active) && not (bytes_eq cfg.route.active tag)
      then on_option (get_tunnel cfg cfg.route.active) (done) (λ old.
        if has_managed_service old
        then ignore (stop (tunnel_service_name cfg.route.active))
        else done)
      else done

  -- `SwitchActive`
  unfoldable pub switch_active : Config → Bytes → Action Done
  switch_active cfg tag =
      on_option (get_tunnel cfg tag)
        (raise (plain (codes "tunnel " ++ (quote tag ++ codes " not found"))))
        (λ t. do
          stop_active cfg tag
          if has_managed_service t then start (tunnel_service_name tag) else done
          restart_router_service)

  -- `AddTunnel`
  unfoldable pub add_route : TunnelConfig → Action Done
  add_route t =
      if is_dns_tunnel t
      then (do
        active ← router_active
        if active then restart_router_service else ensure_router_running)
      else done

  -- `RemoveTunnel`
  unfoldable pub remove_route : Action Done
  remove_route = do active ← router_active; if active then restart_router_service else done
