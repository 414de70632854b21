-- ===== src/SocksService/Frame.antt =====
-- The SOCKS5 service of internal/proxy leaves the configuration in memory alone.
use slipgate.Prelude.{Bytes, List}
use slipgate.Config.{Config, UserConfig}
use slipgate.Host.{Env}
use slipgate.Host.Keeps.{Keeps}
use slipgate.Host.Frame.{InMemory}
use slipgate.Service.{ServiceUnit}
use slipgate.Service.Frame.{service_rules}
use slipgate.SocksService.{
  own_creds, write_creds_file, install_socks, refresh_socks, setup_socks_multi, setup_socks,
  setup_socks_with_users, setup_socks_external_with_users,
}

module _ ⦃env : Env⦄ {P : Config → Type 0} where
  own_creds-InMemory : Keeps (InMemory P) own_creds
  unfolding own_creds
  own_creds-InMemory = search service_rules

  write_creds_file-InMemory : (us : List UserConfig) → Keeps (InMemory P) (write_creds_file us)
  unfolding write_creds_file
  write_creds_file-InMemory us = search (service_rules, own_creds-InMemory)

  install_socks-InMemory : (u : ServiceUnit) → Keeps (InMemory P) (install_socks u)
  unfolding install_socks
  install_socks-InMemory u = search service_rules

  refresh_socks-InMemory :
      (existing : Bytes) (u : ServiceUnit) → Keeps (InMemory P) (refresh_socks existing u)
  unfolding refresh_socks
  refresh_socks-InMemory existing u = search (service_rules, install_socks-InMemory)

  pub setup_socks_multi-InMemory :
      (address : Bytes) (us : List UserConfig) → Keeps (InMemory P) (setup_socks_multi address us)
  unfolding setup_socks_multi
  setup_socks_multi-InMemory address us =
      search (service_rules, write_creds_file-InMemory, refresh_socks-InMemory) depth 12

  pub setup_socks-InMemory : Keeps (InMemory P) setup_socks
  unfolding setup_socks
  setup_socks-InMemory = search setup_socks_multi-InMemory

  pub setup_socks_with_users-InMemory :
      (us : List UserConfig) → Keeps (InMemory P) (setup_socks_with_users us)
  unfolding setup_socks_with_users
  setup_socks_with_users-InMemory us = search setup_socks_multi-InMemory

  pub setup_socks_external_with_users-InMemory :
      (us : List UserConfig) → Keeps (InMemory P) (setup_socks_external_with_users us)
  unfolding setup_socks_external_with_users
  setup_socks_external_with_users-InMemory us = search setup_socks_multi-InMemory

pub ruleset socks_rules = (
  setup_socks-InMemory, setup_socks_with_users-InMemory, setup_socks_external_with_users-InMemory,
)
