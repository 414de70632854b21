-- ===== src/Transport/Create.antt =====
-- Making and removing the services of the tunnels: internal/transport, and the random decoy of
-- internal/config/defaults.go.
use slipgate.Prelude.{Bool, [], ◌∷◌, ◌++◌, if◌then◌else◌, Bytes, codes, bytes_eq, get_or, length}
use slipgate.Config.{
  TunnelConfig, Config, NaiveConfig, StunTlsConfig, is_empty, one_of, transport_dnstt,
  transport_slipstream, transport_vaydns, transport_naive, transport_stuntls, transport_ssh,
  transport_socks, transport_external,
}
use slipgate.Host.{
  on_option, on_result, Action, Env, plain, Result, Done, pure, raise, done, gets, attempt, ignore,
  lift, ◌>>=◌, ◌>>◌, error_text,
}
use slipgate.Host.Machine.{run, write_file, mkdir_all, path_join}
use slipgate.Service.{
  system_group, tunnel_service_name, create, start, stop, restart, remove, status,
}
use slipgate.Transport.{
  backend_address, build_dnstt, build_slipstream, build_vaydns, caddyfile, decoy_sites, dns_unit,
  naive_unit, naive_user, stuntls_unit, tunnel_dir,
}

module _ ⦃env : Env⦄ where
  -- `config.RandomDecoyURL`
  unfoldable pub random_decoy_url : Action Bytes
  random_decoy_url = gets (λ w. get_or decoy_sites (env.random w 0 (length decoy_sites)) [])

  -- `createDNSTTService`, `createSlipstreamService` and `createVayDNSService`
  unfoldable pub create_dns_service : TunnelConfig → Result Bytes → Action Done
  create_dns_service t built = do
    line ← lift built
    create (dns_unit t line)
    start (tunnel_service_name t.tag)

  -- `if _, err := service.Status(name); err == nil { return service.Restart(name) }`, then Start
  unfoldable pub restart_or_start : Bytes → Action Done
  restart_or_start name = do
    answer ← status name
    on_option answer.1 (restart name) (λ e. start name)

  -- the directory that Caddy writes to as another user than root
  unfoldable pub prepare_naive_dir : Bytes → Action Done
  prepare_naive_dir dir = do
    ignore (mkdir_all (path_join dir (codes ".caddy")))
    ignore
        (run (codes "chown" ∷ codes "-R" ∷ (naive_user ++ (codes ":" ++ system_group)) ∷ dir ∷ []))

  unfoldable pub write_caddyfile : TunnelConfig → NaiveConfig → Action Done
  write_caddyfile t n = do
    decoy ← (if is_empty n.decoy_url then random_decoy_url else pure n.decoy_url)
    written ←
        attempt
          (write_file (path_join (tunnel_dir t.tag) (codes "Caddyfile")) (caddyfile t n decoy))
    on_result written (λ _. done) (λ e. raise (plain (codes "write Caddyfile: " ++ error_text e)))

  -- `createNaiveService`, from the point where the parts it needs are there
  unfoldable pub create_naive : TunnelConfig → NaiveConfig → Bool → Action Done
  create_naive t n warp = do
    write_caddyfile t n
    if warp then prepare_naive_dir (tunnel_dir t.tag) else done
    create (naive_unit t warp)
    restart_or_start (tunnel_service_name t.tag)

  unfoldable pub create_naive_service : TunnelConfig → Config → Action Done
  create_naive_service t cfg =
      on_option t.naive (raise (plain (codes "naive config is nil")))
        (λ n. lift (backend_address cfg t) >>= λ _. create_naive t n cfg.warp)

  unfoldable pub create_stuntls : TunnelConfig → StunTlsConfig → Bytes → Action Done
  create_stuntls t s address = do
    exec_path ←
        on_result env.executable (λ path. pure path)
          (λ e. raise (plain (codes "resolve executable: " ++ error_text e)))
    create (stuntls_unit t s exec_path address)
    restart_or_start (tunnel_service_name t.tag)

  -- `createStunTLSService`
  unfoldable pub create_stuntls_service : TunnelConfig → Config → Action Done
  create_stuntls_service t cfg =
      on_option t.stuntls (raise (plain (codes "stuntls config is nil")))
        (λ s. lift (backend_address cfg t) >>= create_stuntls t s)

  -- `CreateService`
  unfoldable pub create_service : TunnelConfig → Config → Action Done
  create_service t cfg =
      if bytes_eq t.transport transport_dnstt
      then create_dns_service t (build_dnstt t cfg)
      else if bytes_eq t.transport transport_slipstream
      then create_dns_service t (build_slipstream t cfg)
      else if bytes_eq t.transport transport_vaydns
      then create_dns_service t (build_vaydns t cfg)
      else if bytes_eq t.transport transport_naive
      then create_naive_service t cfg
      else if bytes_eq t.transport transport_stuntls
      then create_stuntls_service t cfg
      else if one_of t.transport (transport_ssh ∷ transport_socks ∷ [])
      then done
      else if bytes_eq t.transport transport_external
      then done
      else raise (plain (codes "unknown transport: " ++ t.transport))

  -- `RemoveService`
  unfoldable pub remove_service : Bytes → Action Done
  remove_service tag = do ignore (stop (tunnel_service_name tag)); remove (tunnel_service_name tag)
