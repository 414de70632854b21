-- ===== src/ClientConfig/Generate.antt =====
-- `GenerateURI` of internal/clientcfg/generate.go.
use slipgate.Prelude.{
  ℕ, zero, suc, ◌-◌, not, ◌&&◌, List, [], ◌∷◌, ◌++◌, Option, none, some, Bytes, codes, bytes_eq,
  if◌then◌else◌, has_prefix, length, set, get_or, decimal,
}
use slipgate.Config.{
  TunnelConfig, BackendConfig, DnsttConfig, VayDnsConfig, NaiveConfig, StunTlsConfig, SocksConfig,
  transport_dnstt, transport_vaydns, transport_naive, transport_stuntls, transport_ssh,
  transport_socks, backend_socks, backend_ssh, is_empty, one_of, resolved_idle_timeout,
  resolved_keep_alive, resolved_client_id_size,
}
use slipgate.ClientConfig.{Library, total_fields, blank, encode}
use slipgate.ClientConfig.Fields.{
  f_allow_sharing, f_auth_mode, f_congestion_control, f_dns_payload_size, f_dns_transport,
  f_dnstt_authoritative, f_domain, f_expiration_date, f_fwd_dns_through_ssh, f_gso_enabled,
  f_is_locked, f_keep_alive, f_naive_pass, f_naive_port, f_naive_user, f_name, f_noizdns_stealth,
  f_public_key, f_resolvers, f_resolvers_hidden, f_socks5_server_port, f_socks_pass, f_socks_user,
  f_ssh_auth_type, f_ssh_enabled, f_ssh_host, f_ssh_http_proxy_port, f_ssh_key_passphrase,
  f_ssh_pass, f_ssh_payload, f_ssh_port, f_ssh_private_key, f_ssh_tls_enabled, f_ssh_user,
  f_ssh_ws_enabled, f_ssh_ws_path, f_ssh_ws_use_tls, f_tcp_listen_host, f_tcp_listen_port,
  f_tor_bridge_lines, f_tunnel_type, f_use_server_dns, f_vaydns_client_id_size,
  f_vaydns_dnstt_compat, f_vaydns_idle_timeout, f_vaydns_keepalive, f_vaydns_max_num_labels,
  f_vaydns_max_qname_len, f_vaydns_record_type, f_vaydns_rps, f_vaydns_udp_timeout, f_version,
  client_mode_noizdns, get_tunnel_type,
}

-- `URIOptions`
pub record UriOptions : Type 0 where
  pub client_mode : Bytes
  pub username : Bytes
  pub password : Bytes

abbrev pub Fields : Type 0
Fields = List Bytes

-- `fields[i] = v` for each of these in turn
unfoldable pub assign : List (ℕ × Bytes) → Fields → Fields
assign [] fields = fields
assign ((i, v) ∷ rest) fields = assign rest (set fields i v)

-- strings.ReplaceAll(s, old, new), for an `old` that is not empty; `skip` bytes of the last match are still to pass.
unfoldable pub replace_all : ℕ → Bytes → Bytes → Bytes → Bytes
replace_all skip [] old new = []
replace_all (suc skip) (c ∷ s) old new = replace_all skip s old new
replace_all zero (c ∷ s) old new =
    let other = c ∷ replace_all zero s old new in
    if has_prefix (c ∷ s) old then new ++ replace_all (length old - 1) s old new else other

-- `b64`
unfoldable pub b64 : Library → Bytes → Bytes
b64 lib s = if is_empty s then [] else lib.base64 s

-- `durationToSeconds`
unfoldable pub duration_to_seconds : Library → Bytes → Bytes
duration_to_seconds lib d =
    if is_empty d
    then codes "0"
    else elim (lib.parse_seconds d) [ none ↦ codes "0" | some n ↦ decimal n ]

-- The two fields that name the type, the name and the domain.
abbrev pub base_fields : TunnelConfig → UriOptions → List (ℕ × Bytes)
base_fields t opts =
    (f_version, codes "22")
    ∷ (f_tunnel_type, get_tunnel_type t.transport t.backend opts.client_mode)
    ∷ (
      f_name,
      if bytes_eq opts.client_mode client_mode_noizdns
          then replace_all 0 t.tag (codes "dnstt") (codes "noizdns")
          else t.tag,
    )
    ∷ (f_domain, t.domain)
    ∷ []

abbrev pub default_fields : Library → List (ℕ × Bytes)
default_fields lib =
    (f_resolvers, codes "8.8.8.8:53:0")
    ∷ (f_auth_mode, codes "0")
    ∷ (f_keep_alive, codes "5000")
    ∷ (f_congestion_control, codes "bbr")
    ∷ (f_tcp_listen_port, codes "1080")
    ∷ (f_tcp_listen_host, codes "127.0.0.1")
    ∷ (f_gso_enabled, codes "0")
    ∷ (f_ssh_enabled, codes "0")
    ∷ (f_ssh_port, codes "22")
    ∷ (f_fwd_dns_through_ssh, codes "0")
    ∷ (f_ssh_host, lib.server_ip)
    ∷ (f_use_server_dns, codes "0")
    ∷ (f_dns_transport, codes "udp")
    ∷ (f_ssh_auth_type, codes "password")
    ∷ (f_ssh_private_key, b64 lib [])
    ∷ (f_ssh_key_passphrase, b64 lib [])
    ∷ (f_tor_bridge_lines, b64 lib [])
    ∷ (f_dnstt_authoritative, codes "0")
    ∷ (f_naive_port, codes "443")
    ∷ (f_naive_pass, b64 lib [])
    ∷ (f_is_locked, codes "0")
    ∷ (f_expiration_date, codes "0")
    ∷ (f_allow_sharing, codes "0")
    ∷ (f_resolvers_hidden, codes "0")
    ∷ (f_noizdns_stealth, codes "0")
    ∷ (f_dns_payload_size, codes "0")
    ∷ (f_socks5_server_port, codes "1080")
    ∷ (f_vaydns_dnstt_compat, codes "0")
    ∷ (f_vaydns_record_type, codes "txt")
    ∷ (f_vaydns_max_qname_len, codes "101")
    ∷ (f_vaydns_rps, codes "0")
    ∷ (f_vaydns_idle_timeout, codes "0")
    ∷ (f_vaydns_keepalive, codes "0")
    ∷ (f_vaydns_udp_timeout, codes "0")
    ∷ (f_vaydns_max_num_labels, codes "0")
    ∷ (f_vaydns_client_id_size, codes "0")
    ∷ (f_ssh_tls_enabled, codes "0")
    ∷ (f_ssh_ws_enabled, codes "0")
    ∷ (f_ssh_ws_path, codes "/")
    ∷ (f_ssh_ws_use_tls, codes "1")
    ∷ (f_ssh_http_proxy_port, codes "8080")
    ∷ (f_ssh_payload, b64 lib [])
    ∷ []

abbrev pub dnstt_fields : Option DnsttConfig → List (ℕ × Bytes)
dnstt_fields none = []
dnstt_fields (some d) = (f_public_key, d.public_key) ∷ []

-- if s != "" { fields[i] = v }
abbrev pub unless_empty : Bytes → ℕ → Bytes → List (ℕ × Bytes)
unless_empty s i v = if is_empty s then [] else (i, v) ∷ []

abbrev pub vaydns_fields : Library → Option VayDnsConfig → List (ℕ × Bytes)
vaydns_fields lib none = []
vaydns_fields lib (some v) =
    (f_public_key, v.public_key)
    ∷ (f_vaydns_dnstt_compat, if v.dnstt_compat then codes "1" else codes "0")
    ∷ (f_vaydns_record_type, if is_empty v.record_type then codes "txt" else v.record_type)
    ∷ (unless_empty v.idle_timeout f_vaydns_idle_timeout
          (duration_to_seconds lib (resolved_idle_timeout (some v)))
        ++ (unless_empty v.keep_alive f_vaydns_keepalive
              (duration_to_seconds lib (resolved_keep_alive (some v)))
            ++ ((f_vaydns_client_id_size, decimal (resolved_client_id_size (some v))) ∷ [])))

abbrev pub naive_fields : Library → Option NaiveConfig → List (ℕ × Bytes)
naive_fields lib none = []
naive_fields lib (some n) =
    (f_naive_port, decimal n.port)
    ∷ (f_naive_user, if is_empty n.user then codes "slipgate" else n.user)
    ∷ (f_naive_pass, if is_empty n.password then b64 lib (codes "slipgate") else b64 lib n.password)
    ∷ []

abbrev pub stuntls_fields : Library → Option StunTlsConfig → List (ℕ × Bytes)
stuntls_fields lib none = []
stuntls_fields lib (some s) =
    (f_domain, lib.server_ip)
    ∷ (f_ssh_port, decimal s.port)
    ∷ (f_ssh_ws_enabled, codes "1")
    ∷ (f_ssh_ws_use_tls, codes "1")
    ∷ (f_ssh_ws_path, codes "/")
    ∷ []

-- the switch on the transport
unfoldable pub transport_fields : Library → TunnelConfig → List (ℕ × Bytes)
transport_fields lib t =
    if bytes_eq t.transport transport_dnstt
    then dnstt_fields t.dnstt
    else if bytes_eq t.transport transport_vaydns
    then vaydns_fields lib t.vaydns
    else if bytes_eq t.transport transport_naive
    then naive_fields lib t.naive
    else if bytes_eq t.transport transport_stuntls
    then stuntls_fields lib t.stuntls
    else if one_of t.transport (transport_ssh ∷ transport_socks ∷ [])
    then (f_domain, lib.server_ip) ∷ []
    else []

socks_of : Option BackendConfig → Option SocksConfig
socks_of none = none
socks_of (some b) = if bytes_eq b.kind backend_socks then b.socks else none

-- The name and the password that the link carries.
unfoldable pub credentials_of : Option BackendConfig → UriOptions → Bytes × Bytes
unfolding socks_of
credentials_of backend opts = elim (socks_of backend) [
  | none ↦ (opts.username, opts.password)
  | some s ↦ if is_empty opts.username then (s.user, s.password) else (opts.username, opts.password)
]

-- if fields[FSSHPort] == "" && backend != nil { … }
unfoldable pub default_port : Library → Option BackendConfig → Fields → Fields
default_port lib none fields = fields
default_port lib (some b) fields =
    if is_empty (get_or fields f_ssh_port [])
    then elim (lib.split_port b.address) [ none ↦ fields | some port ↦ set fields f_ssh_port port ]
    else fields

-- if fields[FSSHHost] == "" { … }
unfoldable pub default_host : Library → Fields → Fields
default_host lib fields =
    if is_empty (get_or fields f_ssh_host []) then set fields f_ssh_host lib.server_ip else fields

-- the block for the backend SSH
unfoldable pub ssh_fields :
    Library → TunnelConfig → Option BackendConfig → Bytes × Bytes → Fields → Fields
ssh_fields lib t backend user fields =
    if bytes_eq t.backend backend_ssh
    then default_host lib (
        default_port lib backend (
          assign ((f_ssh_enabled, codes "1") ∷ (f_ssh_user, user.0) ∷ (f_ssh_pass, user.1) ∷ [])
            fields))
    else fields

-- the block for NaiveProxy
unfoldable pub naive_user_fields : Library → TunnelConfig → Bytes × Bytes → Fields → Fields
naive_user_fields lib t user fields =
    if bytes_eq t.transport transport_naive && not (is_empty user.0)
    then assign ((f_naive_user, user.0) ∷ (f_naive_pass, b64 lib user.1) ∷ []) fields
    else fields

-- The fields that `GenerateURI` encodes.
unfoldable pub generate_fields : Library → TunnelConfig → Option BackendConfig → UriOptions → Fields
generate_fields lib t backend opts =
    let user = credentials_of backend opts in
    let start = assign (base_fields t opts ++ default_fields lib) (blank total_fields) in
    let sent =
      assign ((f_socks_user, user.0) ∷ (f_socks_pass, user.1) ∷ [])
        (assign (transport_fields lib t) start) in
    naive_user_fields lib t user (ssh_fields lib t backend user sent)

-- `GenerateURI`; it never returns an error.
unfoldable pub generate_uri : Library → TunnelConfig → Option BackendConfig → UriOptions → Bytes
generate_uri lib t backend opts = encode lib (generate_fields lib t backend opts)
