-- ===== src/ClientConfig/Fields.antt =====
-- internal/clientcfg/fields.go: the positions of the fields, and the names of the tunnel types.
use slipgate.Prelude.{ℕ, [], ◌∷◌, none, some, Bytes, codes, bytes_eq, if◌then◌else◌}
use slipgate.Prelude.Table.{Table, text_eq, load}
use slipgate.Config.{
  transport_dnstt, transport_slipstream, transport_vaydns, transport_naive, transport_stuntls,
  transport_ssh, transport_socks, backend_socks, backend_ssh,
}

abbrev pub f_version : ℕ
f_version = 0

abbrev pub f_tunnel_type : ℕ
f_tunnel_type = 1

abbrev pub f_name : ℕ
f_name = 2

abbrev pub f_domain : ℕ
f_domain = 3

abbrev pub f_resolvers : ℕ
f_resolvers = 4

abbrev pub f_auth_mode : ℕ
f_auth_mode = 5

abbrev pub f_keep_alive : ℕ
f_keep_alive = 6

abbrev pub f_congestion_control : ℕ
f_congestion_control = 7

abbrev pub f_tcp_listen_port : ℕ
f_tcp_listen_port = 8

abbrev pub f_tcp_listen_host : ℕ
f_tcp_listen_host = 9

abbrev pub f_gso_enabled : ℕ
f_gso_enabled = 10

abbrev pub f_public_key : ℕ
f_public_key = 11

abbrev pub f_socks_user : ℕ
f_socks_user = 12

abbrev pub f_socks_pass : ℕ
f_socks_pass = 13

abbrev pub f_ssh_enabled : ℕ
f_ssh_enabled = 14

abbrev pub f_ssh_user : ℕ
f_ssh_user = 15

abbrev pub f_ssh_pass : ℕ
f_ssh_pass = 16

abbrev pub f_ssh_port : ℕ
f_ssh_port = 17

abbrev pub f_fwd_dns_through_ssh : ℕ
f_fwd_dns_through_ssh = 18

abbrev pub f_ssh_host : ℕ
f_ssh_host = 19

abbrev pub f_use_server_dns : ℕ
f_use_server_dns = 20

abbrev pub f_dns_transport : ℕ
f_dns_transport = 22

abbrev pub f_ssh_auth_type : ℕ
f_ssh_auth_type = 23

abbrev pub f_ssh_private_key : ℕ
f_ssh_private_key = 24

abbrev pub f_ssh_key_passphrase : ℕ
f_ssh_key_passphrase = 25

abbrev pub f_tor_bridge_lines : ℕ
f_tor_bridge_lines = 26

abbrev pub f_dnstt_authoritative : ℕ
f_dnstt_authoritative = 27

abbrev pub f_naive_port : ℕ
f_naive_port = 28

abbrev pub f_naive_user : ℕ
f_naive_user = 29

abbrev pub f_naive_pass : ℕ
f_naive_pass = 30

abbrev pub f_is_locked : ℕ
f_is_locked = 31

abbrev pub f_expiration_date : ℕ
f_expiration_date = 33

abbrev pub f_allow_sharing : ℕ
f_allow_sharing = 34

abbrev pub f_resolvers_hidden : ℕ
f_resolvers_hidden = 36

abbrev pub f_noizdns_stealth : ℕ
f_noizdns_stealth = 38

abbrev pub f_dns_payload_size : ℕ
f_dns_payload_size = 39

abbrev pub f_socks5_server_port : ℕ
f_socks5_server_port = 40

abbrev pub f_vaydns_dnstt_compat : ℕ
f_vaydns_dnstt_compat = 41

abbrev pub f_vaydns_record_type : ℕ
f_vaydns_record_type = 42

abbrev pub f_vaydns_max_qname_len : ℕ
f_vaydns_max_qname_len = 43

abbrev pub f_vaydns_rps : ℕ
f_vaydns_rps = 44

abbrev pub f_vaydns_idle_timeout : ℕ
f_vaydns_idle_timeout = 45

abbrev pub f_vaydns_keepalive : ℕ
f_vaydns_keepalive = 46

abbrev pub f_vaydns_udp_timeout : ℕ
f_vaydns_udp_timeout = 47

abbrev pub f_vaydns_max_num_labels : ℕ
f_vaydns_max_num_labels = 48

abbrev pub f_vaydns_client_id_size : ℕ
f_vaydns_client_id_size = 49

abbrev pub f_ssh_tls_enabled : ℕ
f_ssh_tls_enabled = 50

abbrev pub f_ssh_http_proxy_port : ℕ
f_ssh_http_proxy_port = 53

abbrev pub f_ssh_ws_enabled : ℕ
f_ssh_ws_enabled = 55

abbrev pub f_ssh_ws_path : ℕ
f_ssh_ws_path = 56

abbrev pub f_ssh_ws_use_tls : ℕ
f_ssh_ws_use_tls = 57

abbrev pub f_ssh_payload : ℕ
f_ssh_payload = 59

abbrev pub client_mode_dnstt : Bytes
client_mode_dnstt = codes "dnstt"

abbrev pub client_mode_noizdns : Bytes
client_mode_noizdns = codes "noizdns"

-- `TunnelTypeMap`
abbrev pub tunnel_type_map : Table Bytes (Table Bytes (Table Bytes Bytes))
tunnel_type_map =
    (
      transport_dnstt,
      (client_mode_dnstt, (backend_socks, codes "dnstt") ∷ (backend_ssh, codes "dnstt_ssh") ∷ [])
          ∷ (
            client_mode_noizdns,
            (backend_socks, codes "sayedns") ∷ (backend_ssh, codes "sayedns_ssh") ∷ [],
          )
          ∷ [],
    )
    ∷ (
      transport_slipstream,
      ([], (backend_socks, codes "ss") ∷ (backend_ssh, codes "slipstream_ssh") ∷ []) ∷ [],
    )
    ∷ (
      transport_vaydns,
      ([], (backend_socks, codes "vaydns") ∷ (backend_ssh, codes "vaydns_ssh") ∷ []) ∷ [],
    )
    ∷ (
      transport_naive,
      ([], (backend_socks, codes "naive") ∷ (backend_ssh, codes "naive_ssh") ∷ []) ∷ [],
    )
    ∷ (transport_stuntls, ([], (backend_ssh, codes "ssh") ∷ []) ∷ [])
    ∷ (transport_ssh, ([], (backend_ssh, codes "ssh") ∷ []) ∷ [])
    ∷ (transport_socks, ([], (backend_socks, codes "socks5") ∷ []) ∷ [])
    ∷ []

abbrev pub unknown : Bytes
unknown = codes "unknown"

-- `GetTunnelType`
unfoldable pub get_tunnel_type : Bytes → Bytes → Bytes → Bytes
get_tunnel_type transport backend client_mode =
    let mode = if bytes_eq transport transport_dnstt then client_mode else [] in
    elim (load transport tunnel_type_map) [
      | none ↦ unknown
      | some modes ↦ elim (load mode modes) [
        | none ↦ unknown
        | some m ↦ elim (load backend m) [ none ↦ unknown | some t ↦ t ]
      ]
    ]
