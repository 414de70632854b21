-- ===== src/Handlers/System/Routed.antt =====
-- internal/handlers/system_mtu.go and system_restart.go: the tags, the route and the mode stay as they are.
use slipgate.Prelude.{
  ℕ, ◌≡◌, refl, ◌∙◌, List, [], ◌∷◌, Bytes, bytes_eq, is_some, Bool-cases, inl, inr, true, arith,
}
use slipgate.Config.{TunnelConfig, Config, transport_dnstt, transport_vaydns}
use slipgate.Config.Store.{find_key, tunnel_key}
use slipgate.Config.Store.Laws.{Unique}
use slipgate.Host.{Env}
use slipgate.Host.Keeps.{Keeps}
use slipgate.Host.Frame.{InMemory, set_config-InMemory, set_run_as-InMemory}
use slipgate.Actions.{Args}
use slipgate.Network.Frame.{network_rules}
use slipgate.Transport.Frame.{create_service-InMemory}
use slipgate.SocksService.Frame.{socks_rules}
use slipgate.Handlers.Routed.{IsRouted, active_ok}
use slipgate.Handlers.Invariant.{handler_rules}
use slipgate.Handlers.System.{
  with_mtu, set_mtus, set_all_mtus, show_mtu, recreate, apply_mtu, read_mtu, parse_mtu, change_mtus,
  handle_system_mtu, restart_named, restart_existing, restart_tunnel, setup_for, fix_socks,
  restart_socks, free_dns_port, handle_system_restart,
}

with_mtu-tag : (mtu : ℕ) (t : TunnelConfig) → (with_mtu mtu t).tag ≡ t.tag
unfolding with_mtu
with_mtu-tag mtu t = elim (Bool-cases (bytes_eq t.transport transport_dnstt)) [
  | inl dnstt ↦ rw dnstt refl
  | inr other ↦ elim (Bool-cases (bytes_eq t.transport transport_vaydns)) [
    | inl vaydns ↦ rw (other, vaydns) refl
    | inr neither ↦ rw (other, neither) refl
  ]
]

-- The same tags are there.
find_key-set_mtus :
    (mtu : ℕ) (tag : Bytes) (ts : List TunnelConfig)
    → is_some (find_key tunnel_key tag (set_mtus mtu ts)) ≡ is_some (find_key tunnel_key tag ts)
unfolding find_key set_mtus
find_key-set_mtus mtu tag [] = refl
find_key-set_mtus mtu tag (t ∷ ts) =
    ground (arith, with_mtu-tag mtu t, find_key-set_mtus mtu tag ts)

Unique-set_mtus :
    (mtu : ℕ) (ts : List TunnelConfig) → Unique tunnel_key ts → Unique tunnel_key (set_mtus mtu ts)
unfolding set_mtus
Unique-set_mtus mtu [] u = tt
Unique-set_mtus mtu (t ∷ ts) (fresh, u) = (
  ground (arith, with_mtu-tag mtu t, find_key-set_mtus mtu t.tag ts, fresh),
  Unique-set_mtus mtu ts u,
)

active_ok-set_mtus :
    (mtu : ℕ) (active : Bytes) (ts : List TunnelConfig)
    → active_ok ts active ≡ true
    → active_ok (set_mtus mtu ts) active ≡ true
unfolding active_ok set_mtus
active_ok-set_mtus mtu active [] h = h
active_ok-set_mtus mtu active (t ∷ ts) h =
    unfold set_mtus in find_key-set_mtus mtu active (t ∷ ts) ∙ h

set_all_mtus-IsRouted : (mtu : ℕ) (c : Config) → IsRouted c → IsRouted (set_all_mtus mtu c)
unfolding set_all_mtus
set_all_mtus-IsRouted mtu c h = record {
  distinct = Unique-set_mtus mtu c.tunnels h.distinct;
  active = active_ok-set_mtus mtu c.route.active c.tunnels h.active;
  mode = h.mode;
}

module _ ⦃env : Env⦄ {P : Config → Type 0} where
  show_mtu-InMemory : (t : TunnelConfig) → Keeps (InMemory P) (show_mtu t)
  unfolding show_mtu
  show_mtu-InMemory t = search handler_rules

  recreate-InMemory : (t : TunnelConfig) → Keeps (InMemory P) (recreate t)
  unfolding recreate
  recreate-InMemory t = search (handler_rules, create_service-InMemory) depth 9

  read_mtu-InMemory : (args : Args) (current : ℕ) → Keeps (InMemory P) (read_mtu args current)
  unfolding read_mtu
  read_mtu-InMemory args current = search handler_rules

  parse_mtu-InMemory : (text : Bytes) → Keeps (InMemory P) (parse_mtu text)
  unfolding parse_mtu
  parse_mtu-InMemory text = search handler_rules

  restart_named-InMemory : (name : Bytes) → Keeps (InMemory P) (restart_named name)
  unfolding restart_named
  restart_named-InMemory name = search handler_rules

  restart_existing-InMemory : (name : Bytes) → Keeps (InMemory P) (restart_existing name)
  unfolding restart_existing
  restart_existing-InMemory name = search (handler_rules, restart_named-InMemory)

  restart_tunnel-InMemory : (t : TunnelConfig) → Keeps (InMemory P) (restart_tunnel t)
  unfolding restart_tunnel
  restart_tunnel-InMemory t = search (handler_rules, restart_existing-InMemory)

  setup_for-InMemory : (c : Config) → Keeps (InMemory P) (setup_for c)
  unfolding setup_for
  setup_for-InMemory c = search (handler_rules, socks_rules)

  fix_socks-InMemory : (c : Config) → Keeps (InMemory P) (fix_socks c)
  unfolding fix_socks
  fix_socks-InMemory c = search (handler_rules, set_run_as-InMemory, setup_for-InMemory) depth 9

  restart_socks-InMemory : (c : Config) → Keeps (InMemory P) (restart_socks c)
  unfolding restart_socks
  restart_socks-InMemory c =
      search (handler_rules, restart_named-InMemory, fix_socks-InMemory) depth 9

  free_dns_port-InMemory : (c : Config) → Keeps (InMemory P) (free_dns_port c)
  unfolding free_dns_port
  free_dns_port-InMemory c = search (handler_rules, network_rules)

  pub handle_system_restart-InMemory : Keeps (InMemory P) handle_system_restart
  unfolding handle_system_restart
  handle_system_restart-InMemory =
      search
        (
          handler_rules, free_dns_port-InMemory, restart_socks-InMemory, restart_tunnel-InMemory,
          restart_existing-InMemory,
        )
        depth 10

module _ ⦃env : Env⦄ where
  apply_mtu-IsRouted : (mtu : ℕ) (c : Config) → Keeps (InMemory IsRouted) (apply_mtu mtu c)
  unfolding apply_mtu
  apply_mtu-IsRouted mtu c =
      search (handler_rules, set_config-InMemory, set_all_mtus-IsRouted, recreate-InMemory) depth 10

  change_mtus-IsRouted :
      (args : Args) (c : Config) (first : TunnelConfig)
      → Keeps (InMemory IsRouted) (change_mtus args c first)
  unfolding change_mtus
  change_mtus-IsRouted args c first =
      search
        (
          handler_rules, show_mtu-InMemory, read_mtu-InMemory, parse_mtu-InMemory,
          apply_mtu-IsRouted,
        )
        depth 9

  pub handle_system_mtu-IsRouted :
      (args : Args) → Keeps (InMemory IsRouted) (handle_system_mtu args)
  unfolding handle_system_mtu
  handle_system_mtu-IsRouted args = search (handler_rules, change_mtus-IsRouted)
