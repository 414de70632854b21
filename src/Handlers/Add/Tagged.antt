-- ===== src/Handlers/Add/Tagged.antt =====
-- internal/handlers/tunnel_add.go: the settings of a transport leave the tag of the tunnel.
use slipgate.Prelude.{◌≡◌, Bytes}
use slipgate.Config.{TunnelConfig}
use slipgate.Config.Validation.{Invalid}
use slipgate.Host.{Env}
use slipgate.Host.Returns.{Returns, returns_rules}
use slipgate.Actions.{Args}
use slipgate.Keys.{Crypto}
use slipgate.Handlers.Packages.{Packages}
use slipgate.Handlers.Add.{
  setup_dnstt, setup_slipstream, setup_vaydns, setup_stuntls, setup_external, setup_naive,
  setup_transport,
}

-- with the tag of `t`
abbrev pub HasTagOf : TunnelConfig → TunnelConfig → Type 0
HasTagOf t whole = whole.tag ≡ t.tag

module _ ⦃env : Env⦄ (crypto : Crypto) (message_of : Invalid → Bytes) (packages : Packages) where
  setup_dnstt-HasTagOf :
      (args : Args) (shared : Bytes) (t : TunnelConfig)
      → Returns (HasTagOf t) (setup_dnstt crypto message_of packages args shared t)
  unfolding setup_dnstt
  setup_dnstt-HasTagOf args shared t = search returns_rules

  setup_slipstream-HasTagOf :
      (t : TunnelConfig) → Returns (HasTagOf t) (setup_slipstream crypto message_of packages t)
  unfolding setup_slipstream
  setup_slipstream-HasTagOf t = search returns_rules

  setup_vaydns-HasTagOf :
      (args : Args) (shared : Bytes) (t : TunnelConfig)
      → Returns (HasTagOf t) (setup_vaydns crypto message_of packages args shared t)
  unfolding setup_vaydns
  setup_vaydns-HasTagOf args shared t = search returns_rules depth 8

  setup_stuntls-HasTagOf :
      (t : TunnelConfig) → Returns (HasTagOf t) (setup_stuntls crypto message_of packages t)
  unfolding setup_stuntls
  setup_stuntls-HasTagOf t = search returns_rules

  setup_external-HasTagOf :
      (args : Args) (t : TunnelConfig)
      → Returns (HasTagOf t) (setup_external crypto message_of packages args t)
  unfolding setup_external
  setup_external-HasTagOf args t = search returns_rules

  setup_naive-HasTagOf :
      (args : Args) (t : TunnelConfig)
      → Returns (HasTagOf t) (setup_naive crypto message_of packages args t)
  unfolding setup_naive
  setup_naive-HasTagOf args t = search returns_rules

  pub setup_transport-HasTagOf :
      (args : Args) (shared : Bytes) (t : TunnelConfig)
      → Returns (HasTagOf t) (setup_transport crypto message_of packages args shared t)
  unfolding setup_transport
  setup_transport-HasTagOf args shared t =
      search
        (
          returns_rules, setup_dnstt-HasTagOf, setup_slipstream-HasTagOf, setup_vaydns-HasTagOf,
          setup_stuntls-HasTagOf, setup_external-HasTagOf, setup_naive-HasTagOf,
        )
        depth 10
