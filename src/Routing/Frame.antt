-- ===== src/Routing/Frame.antt =====
-- The routing of internal/router leaves the configuration in memory alone.
use slipgate.Prelude.{Bytes}
use slipgate.Config.{Config, TunnelConfig}
use slipgate.Host.{Env}
use slipgate.Host.Keeps.{Keeps}
use slipgate.Host.Frame.{InMemory}
use slipgate.Service.Frame.{service_rules}
use slipgate.Routing.{
  router_active, ensure_router_running, restart_tunnel, switch_mode, stop_active, switch_active,
  add_route, remove_route,
}

module _ ⦃env : Env⦄ {P : Config → Type 0} where
  router_active-InMemory : Keeps (InMemory P) router_active
  unfolding router_active
  router_active-InMemory = search service_rules

  ensure_router_running-InMemory : Keeps (InMemory P) ensure_router_running
  unfolding ensure_router_running
  ensure_router_running-InMemory = search service_rules

  restart_tunnel-InMemory : (t : TunnelConfig) → Keeps (InMemory P) (restart_tunnel t)
  unfolding restart_tunnel
  restart_tunnel-InMemory t = search service_rules depth 7

  pub switch_mode-InMemory : (c : Config) → Keeps (InMemory P) (switch_mode c)
  unfolding switch_mode
  switch_mode-InMemory c =
      search (service_rules, restart_tunnel-InMemory, ensure_router_running-InMemory)

  stop_active-InMemory : (c : Config) (tag : Bytes) → Keeps (InMemory P) (stop_active c tag)
  unfolding stop_active
  stop_active-InMemory c tag = search service_rules

  pub switch_active-InMemory : (c : Config) (tag : Bytes) → Keeps (InMemory P) (switch_active c tag)
  unfolding switch_active
  switch_active-InMemory c tag = search (service_rules, stop_active-InMemory)

  pub add_route-InMemory : (t : TunnelConfig) → Keeps (InMemory P) (add_route t)
  unfolding add_route
  add_route-InMemory t =
      search (service_rules, router_active-InMemory, ensure_router_running-InMemory)

  pub remove_route-InMemory : Keeps (InMemory P) remove_route
  unfolding remove_route
  remove_route-InMemory = search (service_rules, router_active-InMemory)

pub ruleset routing_rules = (
  service_rules, switch_mode-InMemory, switch_active-InMemory, add_route-InMemory,
  remove_route-InMemory,
)
