-- ===== src/Service/Frame.antt =====
-- The services of internal/service leave the configuration in memory alone.
use slipgate.Prelude.{Bytes}
use slipgate.Config.{Config}
use slipgate.Host.{Env}
use slipgate.Host.Keeps.{Keeps}
use slipgate.Host.Frame.{InMemory, machine_rules}
use slipgate.Service.{
  ServiceUnit, exists, daemon_reload, create, start, stop, restart, reload, status, logs, remove,
  create_router_service, start_router_service, restart_router_service, get_unit_user,
  read_unit_file,
}

module _ {P : Config → Type 0} where
  pub exists-InMemory : (name : Bytes) → Keeps (InMemory P) (exists name)
  unfolding exists
  exists-InMemory name = search machine_rules

  pub get_unit_user-InMemory : (name : Bytes) → Keeps (InMemory P) (get_unit_user name)
  unfolding get_unit_user
  get_unit_user-InMemory name = search machine_rules

  pub read_unit_file-InMemory : (name : Bytes) → Keeps (InMemory P) (read_unit_file name)
  unfolding read_unit_file
  read_unit_file-InMemory name = search machine_rules

module _ ⦃env : Env⦄ {P : Config → Type 0} where
  daemon_reload-InMemory : Keeps (InMemory P) daemon_reload
  unfolding daemon_reload
  daemon_reload-InMemory = search machine_rules

  pub create-InMemory : (u : ServiceUnit) → Keeps (InMemory P) (create u)
  unfolding create
  create-InMemory u = search (machine_rules, daemon_reload-InMemory)

  pub start-InMemory : (name : Bytes) → Keeps (InMemory P) (start name)
  unfolding start
  start-InMemory name = search machine_rules

  pub stop-InMemory : (name : Bytes) → Keeps (InMemory P) (stop name)
  unfolding stop
  stop-InMemory name = search (machine_rules, exists-InMemory)

  pub restart-InMemory : (name : Bytes) → Keeps (InMemory P) (restart name)
  unfolding restart
  restart-InMemory name = search machine_rules

  pub reload-InMemory : (name : Bytes) → Keeps (InMemory P) (reload name)
  unfolding reload
  reload-InMemory name = search machine_rules

  pub status-InMemory : (name : Bytes) → Keeps (InMemory P) (status name)
  unfolding status
  status-InMemory name = search machine_rules

  pub logs-InMemory : (name lines : Bytes) → Keeps (InMemory P) (logs name lines)
  unfolding logs
  logs-InMemory name lines = search machine_rules

  pub remove-InMemory : (name : Bytes) → Keeps (InMemory P) (remove name)
  unfolding remove
  remove-InMemory name = search (machine_rules, exists-InMemory, daemon_reload-InMemory)

  pub create_router_service-InMemory : Keeps (InMemory P) create_router_service
  unfolding create_router_service
  create_router_service-InMemory = search (machine_rules, create-InMemory, start-InMemory)

  pub start_router_service-InMemory : Keeps (InMemory P) start_router_service
  unfolding start_router_service
  start_router_service-InMemory = search start-InMemory

  pub restart_router_service-InMemory : Keeps (InMemory P) restart_router_service
  unfolding restart_router_service
  restart_router_service-InMemory = search restart-InMemory

pub ruleset service_rules = (
  machine_rules, exists-InMemory, get_unit_user-InMemory, read_unit_file-InMemory, create-InMemory,
  start-InMemory, stop-InMemory, restart-InMemory, reload-InMemory, status-InMemory, logs-InMemory,
  remove-InMemory, create_router_service-InMemory, start_router_service-InMemory,
  restart_router_service-InMemory,
)
