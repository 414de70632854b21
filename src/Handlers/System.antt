-- ===== src/Handlers/System.antt =====
-- internal/handlers/system_mtu.go and system_restart.go.
pub mod Routed
use slipgate.Prelude.{
  ℕ, ◌+◌, Bool, false, not, ◌||◌, List, [], ◌∷◌, ◌++◌, Option, none, some, ◌==◌, if◌then◌else◌,
  Bytes, codes, bytes_eq, length, decimal,
}
use slipgate.Config.{
  TunnelConfig, Config, is_empty, one_of, is_dns_tunnel, is_direct_transport, transport_dnstt,
  transport_vaydns, transport_socks,
}
use slipgate.Host.{
  Action, Env, Done, info, success, warning, print, pure, done, attempt, ignore, each, on_option,
  on_result, get_config, set_config, set_run_as, say, ◌>>=◌, ◌>>◌, error_text,
}
use slipgate.Host.Format.{quote, atoi}
use slipgate.Actions.{Args, get_arg, fail}
use slipgate.Actions.Ids.{system_mtu}
use slipgate.Prompt.{string}
use slipgate.Service.{tunnel_service_name, router_service, exists, stop, restart, get_unit_user}
use slipgate.Transport.{default_mtu}
use slipgate.Transport.Create.{create_service}
use slipgate.Network.Ports.{disable_resolved_stub}
use slipgate.SocksService.{
  socks_service, socks_user, system_user, setup_socks, setup_socks_with_users,
  setup_socks_external_with_users,
}
use slipgate.Handlers.{save_or_fail}

unfoldable pub has_mtu : TunnelConfig → Bool
has_mtu t = one_of t.transport (transport_dnstt ∷ transport_vaydns ∷ [])

-- the tunnels whose MTU is set
unfoldable pub affected : List TunnelConfig → List TunnelConfig
affected [] = []
affected (t ∷ ts) = let rest = affected ts in if has_mtu t then t ∷ rest else rest

-- the MTU of a tunnel, or the default
unfoldable pub mtu_of : TunnelConfig → ℕ
mtu_of t =
    let set =
      if bytes_eq t.transport transport_dnstt
      then elim t.dnstt [ none ↦ 0 | some d ↦ d.mtu ]
      else elim t.vaydns [ none ↦ 0 | some v ↦ v.mtu ] in
    if set == 0 then default_mtu else set

-- the tunnel with another MTU
unfoldable pub with_mtu : ℕ → TunnelConfig → TunnelConfig
with_mtu mtu t =
    if bytes_eq t.transport transport_dnstt
    then record t { dnstt = elim t.dnstt [ none ↦ none | some d ↦ some (record d { mtu = mtu }) ] }
    else if bytes_eq t.transport transport_vaydns
    then record t {
      vaydns = elim t.vaydns [ none ↦ none | some v ↦ some (record v { mtu = mtu }) ];
    }
    else t

-- does the setting change it?
unfoldable pub changes_mtu : ℕ → TunnelConfig → Bool
changes_mtu mtu t =
    if bytes_eq t.transport transport_dnstt
    then elim t.dnstt [ none ↦ false | some d ↦ not (d.mtu == mtu) ]
    else if bytes_eq t.transport transport_vaydns
    then elim t.vaydns [ none ↦ false | some v ↦ not (v.mtu == mtu) ]
    else false

unfoldable pub count_changed : ℕ → List TunnelConfig → ℕ
count_changed mtu [] = 0
count_changed mtu (t ∷ ts) = (if changes_mtu mtu t then 1 else 0) + count_changed mtu ts

unfoldable pub set_mtus : ℕ → List TunnelConfig → List TunnelConfig
set_mtus mtu [] = []
set_mtus mtu (t ∷ ts) = with_mtu mtu t ∷ set_mtus mtu ts

unfoldable pub set_all_mtus : ℕ → Config → Config
set_all_mtus mtu c = record c { tunnels = set_mtus mtu c.tunnels }

unfoldable pub show_mtu : TunnelConfig → Action Done
show_mtu t = say print (
    codes "  "
    ++ (t.tag ++ (codes " (" ++ (t.transport ++ (codes "): MTU=" ++ decimal (mtu_of t))))))

module _ ⦃env : Env⦄ where
  -- service.Stop, then transport.CreateService
  unfoldable pub recreate : TunnelConfig → Action Done
  recreate t = do
    let name = tunnel_service_name t.tag
    ignore (stop name)
    c ← get_config
    made ← attempt (create_service t c)
    on_result made (λ _. say success (codes "  " ++ (name ++ codes " restarted")))
        (λ e. say warning (codes "Failed to recreate " ++ (name ++ (codes ": " ++ error_text e))))

  unfoldable pub apply_mtu : ℕ → Config → Action Done
  apply_mtu mtu c =
      let changed = count_changed mtu c.tunnels in
      if changed == 0 then say info (codes "All tunnels already have MTU=" ++ decimal mtu) else (do
        set_config (set_all_mtus mtu)
        save_or_fail system_mtu
        say success (
            codes "MTU set to "
            ++ (decimal mtu ++ (codes " for " ++ (decimal changed ++ codes " tunnel(s)"))))
        say info (codes "Restarting affected tunnel services...")
        c' ← get_config
        each recreate (affected c'.tunnels))

  unfoldable pub read_mtu : Args → ℕ → Action Bytes
  read_mtu args current =
      let given = get_arg args (codes "mtu") in
      if is_empty given
      then string (codes "New MTU for all DNS tunnels") (decimal current)
      else pure given

  -- newMTU, err := strconv.Atoi(mtuStr), which must be positive
  unfoldable pub parse_mtu : Bytes → Action ℕ
  parse_mtu text =
      on_option (atoi text) (fail system_mtu (codes "invalid MTU " ++ quote text))
        (λ n. if n == 0 then fail system_mtu (codes "invalid MTU " ++ quote text) else pure n)

  unfoldable pub change_mtus : Args → Config → TunnelConfig → Action Done
  change_mtus args c first = do
    each show_mtu (affected c.tunnels)
    text ← read_mtu args (mtu_of first)
    mtu ← parse_mtu text
    apply_mtu mtu c

  -- the first of a list
  abbrev head : List TunnelConfig → Option TunnelConfig
  head [] = none
  head (t ∷ ts) = some t

  -- `handleSystemMTU`
  unfoldable pub handle_system_mtu : Args → Action Done
  handle_system_mtu args = do
    c ← get_config
    on_option (head (affected c.tunnels))
        (say info (codes "No DNSTT/NoizDNS/VayDNS tunnels configured")) (change_mtus args c)

  -- restarts a service and says how it went
  unfoldable pub restart_named : Bytes → Action Done
  restart_named name = do
    r ← attempt (restart name)
    on_result r (λ _. say success (codes "  " ++ (name ++ codes " restarted")))
        (λ e. say warning (codes "Failed to restart " ++ (name ++ (codes ": " ++ error_text e))))

  unfoldable pub restart_existing : Bytes → Action Done
  restart_existing name = do there ← exists name; if there then restart_named name else done

  unfoldable pub restart_tunnel : TunnelConfig → Action Done
  restart_tunnel t =
      if is_direct_transport t then done else restart_existing (tunnel_service_name t.tag)

unfoldable pub any_dns : List TunnelConfig → Bool
any_dns [] = false
any_dns (t ∷ ts) = is_dns_tunnel t || any_dns ts

unfoldable pub any_direct_socks : List TunnelConfig → Bool
any_direct_socks [] = false
any_direct_socks (t ∷ ts) = bytes_eq t.transport transport_socks || any_direct_socks ts

module _ ⦃env : Env⦄ where
  -- the SOCKS service for the configuration
  unfoldable pub setup_for : Config → Action Done
  setup_for c =
      if length c.users == 0
      then setup_socks
      else if any_direct_socks c.tunnels
      then setup_socks_external_with_users c.users
      else setup_socks_with_users c.users

  -- the user that the SOCKS service should run as is not the one that it has
  unfoldable pub fix_socks : Config → Action Done
  fix_socks c = do
    set_run_as (if c.warp then socks_user else [])
    made ← attempt (setup_for c)
    on_result made (λ _. say success (codes "  slipgate-socks5 restarted (fixed service user)"))
        (λ e. say warning (codes "Failed to restart slipgate-socks5: " ++ error_text e))

  unfoldable pub restart_socks : Config → Action Done
  restart_socks c = do
    there ← exists socks_service
    user ← get_unit_user socks_service
    if not there
        then done
        else if bytes_eq user (if c.warp then socks_user else system_user)
        then restart_named socks_service
        else fix_socks c

  unfoldable pub free_dns_port : Config → Action Done
  free_dns_port c =
      if any_dns c.tunnels
      then (do
        r ← attempt disable_resolved_stub
        on_result r (λ _. done)
            (λ e. say warning (codes "Failed to disable systemd-resolved stub: " ++ error_text e)))
      else done

  -- `handleSystemRestart`: the proxy, then the tunnels, then the router
  unfoldable pub handle_system_restart : Action Done
  handle_system_restart = do
    say info (codes "Restarting all services...")
    c ← get_config
    free_dns_port c
    restart_socks c
    each restart_tunnel c.tunnels
    restart_existing router_service
    say print []
    say success (codes "All services restarted")
