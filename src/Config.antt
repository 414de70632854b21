-- ===== src/Config.antt =====
-- The configuration of internal/config: config.go, tunnel.go, backend.go, and the defaults.
-- Every method holds the mutex of `Config` for its whole body, so a method is one step here.
-- A port or an MTU is a natural number: the code treats a negative port as no port.
pub mod Store
pub mod Ports
pub mod Tags
pub mod Validation
use slipgate.Prelude.{
  ℕ, Bool, true, false, ◌&&◌, ◌||◌, not, List, [], ◌∷◌, Option, none, some, ltb, ◌==◌,
  if◌then◌else◌, Bytes, codes, bytes_eq,
}

pub record SocksConfig : Type 0 where
  pub user : Bytes
  pub password : Bytes

pub record BackendConfig : Type 0 where
  pub tag : Bytes
  pub kind : Bytes
  pub address : Bytes
  pub socks : Option SocksConfig

pub record DnsttConfig : Type 0 where
  pub mtu : ℕ
  pub private_key : Bytes
  pub public_key : Bytes

pub record SlipstreamConfig : Type 0 where
  pub cert : Bytes
  pub key : Bytes

pub record NaiveConfig : Type 0 where
  pub email : Bytes
  pub decoy_url : Bytes
  pub port : ℕ
  pub user : Bytes
  pub password : Bytes

pub record VayDnsConfig : Type 0 where
  pub mtu : ℕ
  pub private_key : Bytes
  pub public_key : Bytes
  pub idle_timeout : Bytes
  pub keep_alive : Bytes
  pub fallback : Bytes
  pub dnstt_compat : Bool
  pub client_id_size : ℕ
  pub queue_size : ℕ
  pub kcp_window_size : ℕ
  pub queue_overflow : Bytes
  pub record_type : Bytes

pub record StunTlsConfig : Type 0 where
  pub cert : Bytes
  pub key : Bytes
  pub port : ℕ

pub record TunnelConfig : Type 0 where
  pub tag : Bytes
  pub transport : Bytes
  pub backend : Bytes
  pub domain : Bytes
  pub port : ℕ
  pub enabled : Bool
  pub dnstt : Option DnsttConfig
  pub slipstream : Option SlipstreamConfig
  pub vaydns : Option VayDnsConfig
  pub naive : Option NaiveConfig
  pub stuntls : Option StunTlsConfig

pub record UserConfig : Type 0 where
  pub username : Bytes
  pub password : Bytes

pub record RouteConfig : Type 0 where
  pub mode : Bytes
  pub active : Bytes
  pub default : Bytes

pub record Config : Type 0 where
  pub path : Bytes
  pub listen : Bytes
  pub tunnels : List TunnelConfig
  pub backends : List BackendConfig
  pub users : List UserConfig
  pub route : RouteConfig
  pub warp : Bool

-- the transports
abbrev pub transport_dnstt : Bytes
transport_dnstt = codes "dnstt"

abbrev pub transport_slipstream : Bytes
transport_slipstream = codes "slipstream"

abbrev pub transport_vaydns : Bytes
transport_vaydns = codes "vaydns"

abbrev pub transport_naive : Bytes
transport_naive = codes "naive"

abbrev pub transport_stuntls : Bytes
transport_stuntls = codes "stuntls"

abbrev pub transport_ssh : Bytes
transport_ssh = codes "direct-ssh"

abbrev pub transport_socks : Bytes
transport_socks = codes "direct-socks5"

abbrev pub transport_external : Bytes
transport_external = codes "external"

abbrev pub backend_socks : Bytes
backend_socks = codes "socks"

abbrev pub backend_ssh : Bytes
backend_ssh = codes "ssh"

-- `case a, b, c:` of a switch on a string
unfoldable pub one_of : Bytes → List Bytes → Bool
one_of s [] = false
one_of s (t ∷ ts) = bytes_eq s t || one_of s ts

unfoldable pub is_dns_tunnel : TunnelConfig → Bool
is_dns_tunnel t =
    one_of t.transport
      (transport_dnstt ∷ transport_slipstream ∷ transport_vaydns ∷ transport_external ∷ [])

unfoldable pub has_managed_service : TunnelConfig → Bool
has_managed_service t = is_dns_tunnel t && not (bytes_eq t.transport transport_external)

unfoldable pub is_direct_transport : TunnelConfig → Bool
is_direct_transport t = one_of t.transport (transport_ssh ∷ transport_socks ∷ [])

unfoldable pub is_empty : Bytes → Bool
is_empty [] = true
is_empty (c ∷ s) = false

-- `(*VayDNSConfig).ResolvedIdleTimeout`; the receiver may be nil
unfoldable pub resolved_idle_timeout : Option VayDnsConfig → Bytes
unfolding is_empty
resolved_idle_timeout none = codes "10s"
resolved_idle_timeout (some v) =
    if not (is_empty v.idle_timeout)
    then v.idle_timeout
    else if v.dnstt_compat
    then codes "2m"
    else codes "10s"

unfoldable pub resolved_keep_alive : Option VayDnsConfig → Bytes
unfolding is_empty
resolved_keep_alive none = codes "2s"
resolved_keep_alive (some v) =
    if not (is_empty v.keep_alive)
    then v.keep_alive
    else if v.dnstt_compat
    then codes "10s"
    else codes "2s"

unfoldable pub resolved_client_id_size : Option VayDnsConfig → ℕ
resolved_client_id_size none = 2
resolved_client_id_size (some v) =
    if v.dnstt_compat then 0 else if v.client_id_size == 0 then 2 else v.client_id_size

pub default_backends : List BackendConfig
default_backends =
    record {
      tag = codes "socks";
      kind = backend_socks;
      address = codes "127.0.0.1:1080";
      socks = some (record { user = []; password = [] });
    }
    ∷ record { tag = codes "ssh"; kind = backend_ssh; address = codes "127.0.0.1:22"; socks = none }
    ∷ []

unfoldable pub default : Config
unfolding default_backends
default = record {
  path = codes "/etc/slipgate/config.json";
  listen = codes "0.0.0.0:53";
  tunnels = [];
  backends = default_backends;
  users = [];
  route = record { mode = codes "single"; active = []; default = [] };
  warp = false;
}
