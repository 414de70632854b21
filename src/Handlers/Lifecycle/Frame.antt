-- ===== src/Handlers/Lifecycle/Frame.antt =====
-- The commands of internal/handlers that start, stop and show tunnels leave the configuration in memory alone.
use slipgate.Prelude.{Bytes}
use slipgate.Config.{Config, TunnelConfig, DnsttConfig, VayDnsConfig, NaiveConfig, StunTlsConfig}
use slipgate.Host.{Env}
use slipgate.Host.Keeps.{Keeps}
use slipgate.Host.Frame.{InMemory}
use slipgate.Actions.{Args}
use slipgate.Handlers.Invariant.{handler_rules}
use slipgate.Handlers.Lifecycle.{
  read_key_file, show_private_key, show_dnstt, show_vaydns, show_naive, show_stuntls,
  show_transport, named_tunnel, handle_tunnel_start, handle_tunnel_stop, known_status,
  show_tunnel_status, show_noizdns_status, show_tunnel_detail, show_one, show_every,
  handle_tunnel_status, handle_tunnel_logs,
}

module _ {P : Config → Type 0} where
  read_key_file-InMemory : (path : Bytes) → Keeps (InMemory P) (read_key_file path)
  unfolding read_key_file
  read_key_file-InMemory path = search handler_rules

  show_private_key-InMemory : (path : Bytes) → Keeps (InMemory P) (show_private_key path)
  unfolding show_private_key
  show_private_key-InMemory path = search (handler_rules, read_key_file-InMemory)

  show_dnstt-InMemory : (d : DnsttConfig) → Keeps (InMemory P) (show_dnstt d)
  unfolding show_dnstt
  show_dnstt-InMemory d = search (handler_rules, show_private_key-InMemory)

  show_vaydns-InMemory : (v : VayDnsConfig) → Keeps (InMemory P) (show_vaydns v)
  unfolding show_vaydns
  show_vaydns-InMemory v = search (handler_rules, show_private_key-InMemory) depth 9

  show_naive-InMemory : (n : NaiveConfig) → Keeps (InMemory P) (show_naive n)
  unfolding show_naive
  show_naive-InMemory n = search handler_rules

  show_stuntls-InMemory : (s : StunTlsConfig) → Keeps (InMemory P) (show_stuntls s)
  unfolding show_stuntls
  show_stuntls-InMemory s = search handler_rules

  show_transport-InMemory : (t : TunnelConfig) → Keeps (InMemory P) (show_transport t)
  unfolding show_transport
  show_transport-InMemory t =
      search
        (
          handler_rules, show_dnstt-InMemory, show_vaydns-InMemory, show_naive-InMemory,
          show_stuntls-InMemory,
        )
        depth 9

module _ ⦃env : Env⦄ {P : Config → Type 0} where
  named_tunnel-InMemory : (id tag : Bytes) → Keeps (InMemory P) (named_tunnel id tag)
  unfolding named_tunnel
  named_tunnel-InMemory id tag = search handler_rules

  pub handle_tunnel_start-InMemory : (args : Args) → Keeps (InMemory P) (handle_tunnel_start args)
  unfolding handle_tunnel_start
  handle_tunnel_start-InMemory args = search (handler_rules, named_tunnel-InMemory) depth 9

  pub handle_tunnel_stop-InMemory : (args : Args) → Keeps (InMemory P) (handle_tunnel_stop args)
  unfolding handle_tunnel_stop
  handle_tunnel_stop-InMemory args = search (handler_rules, named_tunnel-InMemory) depth 9

  known_status-InMemory : (tag : Bytes) → Keeps (InMemory P) (known_status tag)
  unfolding known_status
  known_status-InMemory tag = search handler_rules

  show_tunnel_status-InMemory : (t : TunnelConfig) → Keeps (InMemory P) (show_tunnel_status t)
  unfolding show_tunnel_status
  show_tunnel_status-InMemory t = search (handler_rules, known_status-InMemory)

  show_noizdns_status-InMemory : (t : TunnelConfig) → Keeps (InMemory P) (show_noizdns_status t)
  unfolding show_noizdns_status
  show_noizdns_status-InMemory t = search (handler_rules, known_status-InMemory)

  show_tunnel_detail-InMemory : (t : TunnelConfig) → Keeps (InMemory P) (show_tunnel_detail t)
  unfolding show_tunnel_detail
  show_tunnel_detail-InMemory t =
      search (handler_rules, known_status-InMemory, show_transport-InMemory) depth 14

  show_one-InMemory : (t : TunnelConfig) → Keeps (InMemory P) (show_one t)
  unfolding show_one
  show_one-InMemory t =
      search (handler_rules, show_tunnel_status-InMemory, show_noizdns_status-InMemory)

  show_every-InMemory : Keeps (InMemory P) show_every
  unfolding show_every
  show_every-InMemory = search (handler_rules, show_one-InMemory)

  pub handle_tunnel_status-InMemory : (args : Args) → Keeps (InMemory P) (handle_tunnel_status args)
  unfolding handle_tunnel_status
  handle_tunnel_status-InMemory args =
      search
        (handler_rules, show_every-InMemory, named_tunnel-InMemory, show_tunnel_detail-InMemory)

  pub handle_tunnel_logs-InMemory : (args : Args) → Keeps (InMemory P) (handle_tunnel_logs args)
  unfolding handle_tunnel_logs
  handle_tunnel_logs-InMemory args = search (handler_rules, named_tunnel-InMemory) depth 9
