-- ===== src/Transport/Frame.antt =====
-- The services of internal/transport leave the configuration in memory alone.
use slipgate.Prelude.{Bytes, Bool}
use slipgate.Config.{Config, TunnelConfig, NaiveConfig, StunTlsConfig}
use slipgate.Host.{Env, Result}
use slipgate.Host.Keeps.{Keeps}
use slipgate.Host.Frame.{InMemory}
use slipgate.Service.Frame.{service_rules}
use slipgate.Transport.Create.{
  random_decoy_url, create_dns_service, restart_or_start, prepare_naive_dir, write_caddyfile,
  create_naive, create_naive_service, create_stuntls, create_stuntls_service, create_service,
}

module _ ⦃env : Env⦄ {P : Config → Type 0} where
  pub random_decoy_url-InMemory : Keeps (InMemory P) random_decoy_url
  unfolding random_decoy_url
  random_decoy_url-InMemory = search service_rules

  create_dns_service-InMemory :
      (t : TunnelConfig) (r : Result Bytes) → Keeps (InMemory P) (create_dns_service t r)
  unfolding create_dns_service
  create_dns_service-InMemory t r = search service_rules

  restart_or_start-InMemory : (name : Bytes) → Keeps (InMemory P) (restart_or_start name)
  unfolding restart_or_start
  restart_or_start-InMemory name = search service_rules

  prepare_naive_dir-InMemory : (dir : Bytes) → Keeps (InMemory P) (prepare_naive_dir dir)
  unfolding prepare_naive_dir
  prepare_naive_dir-InMemory dir = search service_rules

  write_caddyfile-InMemory :
      (t : TunnelConfig) (n : NaiveConfig) → Keeps (InMemory P) (write_caddyfile t n)
  unfolding write_caddyfile
  write_caddyfile-InMemory t n = search (service_rules, random_decoy_url-InMemory)

  create_naive-InMemory :
      (t : TunnelConfig) (n : NaiveConfig) (warp : Bool)
      → Keeps (InMemory P) (create_naive t n warp)
  unfolding create_naive
  create_naive-InMemory t n warp = search (
    service_rules, write_caddyfile-InMemory, prepare_naive_dir-InMemory, restart_or_start-InMemory,
  )

  create_naive_service-InMemory :
      (t : TunnelConfig) (c : Config) → Keeps (InMemory P) (create_naive_service t c)
  unfolding create_naive_service
  create_naive_service-InMemory t c = search (service_rules, create_naive-InMemory)

  create_stuntls-InMemory :
      (t : TunnelConfig) (s : StunTlsConfig) (address : Bytes)
      → Keeps (InMemory P) (create_stuntls t s address)
  unfolding create_stuntls
  create_stuntls-InMemory t s address = search (service_rules, restart_or_start-InMemory)

  create_stuntls_service-InMemory :
      (t : TunnelConfig) (c : Config) → Keeps (InMemory P) (create_stuntls_service t c)
  unfolding create_stuntls_service
  create_stuntls_service-InMemory t c = search (service_rules, create_stuntls-InMemory)

  pub create_service-InMemory :
      (t : TunnelConfig) (c : Config) → Keeps (InMemory P) (create_service t c)
  unfolding create_service
  create_service-InMemory t c =
      search
        (
          service_rules, create_dns_service-InMemory, create_naive_service-InMemory,
          create_stuntls_service-InMemory,
        )
        depth 12
