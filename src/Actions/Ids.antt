-- ===== src/Actions/Ids.antt =====
-- The identifiers of internal/actions/ids.go and the choices of internal/actions/options.go.
use slipgate.Prelude.{List, [], ◌∷◌, ◌++◌, Bytes, codes}
use slipgate.Actions.{SelectOption}

abbrev pub tunnel_add : Bytes
tunnel_add = codes "tunnel.add"

abbrev pub tunnel_remove : Bytes
tunnel_remove = codes "tunnel.remove"

abbrev pub tunnel_start : Bytes
tunnel_start = codes "tunnel.start"

abbrev pub tunnel_stop : Bytes
tunnel_stop = codes "tunnel.stop"

abbrev pub tunnel_share : Bytes
tunnel_share = codes "tunnel.share"

abbrev pub tunnel_status : Bytes
tunnel_status = codes "tunnel.status"

abbrev pub tunnel_logs : Bytes
tunnel_logs = codes "tunnel.logs"

abbrev pub tunnel_edit : Bytes
tunnel_edit = codes "tunnel.edit"

abbrev pub router_status : Bytes
router_status = codes "router.status"

abbrev pub router_mode : Bytes
router_mode = codes "router.mode"

abbrev pub router_switch : Bytes
router_switch = codes "router.switch"

abbrev pub system_install : Bytes
system_install = codes "system.install"

abbrev pub system_uninstall : Bytes
system_uninstall = codes "system.uninstall"

abbrev pub system_update : Bytes
system_update = codes "system.update"

abbrev pub system_restart : Bytes
system_restart = codes "system.restart"

abbrev pub system_users : Bytes
system_users = codes "system.users"

abbrev pub system_stats : Bytes
system_stats = codes "system.stats"

abbrev pub system_diag : Bytes
system_diag = codes "system.diag"

abbrev pub system_mtu : Bytes
system_mtu = codes "system.mtu"

abbrev pub quick_wizard : Bytes
quick_wizard = codes "system.wizard"

abbrev pub warp_toggle : Bytes
warp_toggle = codes "warp.toggle"

abbrev pub config_export : Bytes
config_export = codes "config.export"

abbrev pub config_import : Bytes
config_import = codes "config.import"

-- the bytes of a dash between a name and its description
abbrev dash : Bytes
dash = codes " " ++ (226 ∷ 128 ∷ 148 ∷ codes " ")

abbrev option : Bytes → Bytes → SelectOption
option value label = record { value = value; label = label }

abbrev pub transport_options : List SelectOption
transport_options =
    option (codes "dnstt") (codes "DNSTT / NoizDNS" ++ (dash ++ codes "DNS tunnel"))
    ∷ option (codes "slipstream") (codes "Slipstream" ++ (dash ++ codes "QUIC DNS tunnel"))
    ∷ option (codes "vaydns") (codes "VayDNS" ++ (dash ++ codes "KCP DNS tunnel"))
    ∷ option (codes "naive") (codes "NaiveProxy" ++ (dash ++ codes "HTTPS proxy with Caddy"))
    ∷ option (codes "stuntls") (codes "StunTLS" ++ (dash ++ codes "SSH over TLS + WebSocket proxy"))
    ∷ option (codes "external") (codes "External" ++ (dash ++ codes "Route DNS to a custom port"))
    ∷ option (codes "direct-ssh") (codes "SSH" ++ (dash ++ codes "Direct SSH tunnel"))
    ∷ option (codes "direct-socks5") (codes "SOCKS5" ++ (dash ++ codes "Direct SOCKS5 proxy"))
    ∷ []

abbrev pub install_transport_options : List SelectOption
install_transport_options =
    option (codes "dnstt") (codes "DNSTT / NoizDNS" ++ (dash ++ codes "DNS tunnel"))
    ∷ option (codes "slipstream") (codes "Slipstream" ++ (dash ++ codes "QUIC DNS tunnel"))
    ∷ option (codes "vaydns") (codes "VayDNS" ++ (dash ++ codes "KCP DNS tunnel"))
    ∷ option (codes "naive") (codes "NaiveProxy" ++ (dash ++ codes "HTTPS proxy with Caddy"))
    ∷ option (codes "stuntls") (codes "StunTLS" ++ (dash ++ codes "SSH over TLS + WebSocket proxy"))
    ∷ option (codes "direct-ssh") (codes "SSH" ++ (dash ++ codes "Direct SSH tunnel"))
    ∷ option (codes "direct-socks5") (codes "SOCKS5" ++ (dash ++ codes "Direct SOCKS5 proxy"))
    ∷ []

abbrev pub client_mode_options : List SelectOption
client_mode_options =
    option (codes "dnstt") (codes "DNSTT" ++ (dash ++ codes "Classic DNS tunnel client"))
    ∷ option (codes "noizdns") (codes "NoizDNS" ++ (dash ++ codes "DNS tunnel with DPI evasion"))
    ∷ []

abbrev pub backend_options : List SelectOption
backend_options =
    option (codes "socks") (codes "SOCKS" ++ (dash ++ codes "SOCKS5 proxy"))
    ∷ option (codes "ssh") (codes "SSH" ++ (dash ++ codes "SSH tunnel"))
    ∷ option (codes "both") (codes "Both" ++ (dash ++ codes "SOCKS5 + SSH tunnel"))
    ∷ []

abbrev pub router_mode_options : List SelectOption
router_mode_options =
    option (codes "single") (codes "Single" ++ (dash ++ codes "one active tunnel at a time"))
    ∷ option (codes "multi")
        (codes "Multi" ++ (dash ++ codes "domain-based routing to multiple tunnels"))
    ∷ []
