-- ===== src/Transport.antt =====
-- internal/transport: the command lines and the units of the tunnels' services (builder.go,
-- dnstt.go, slipstream.go, vaydns.go, naive.go, stuntls.go), and the decoys of
-- internal/config/defaults.go.
pub mod Frame
pub mod Create
use slipgate.Prelude.{
  ℕ, ◌+◌, Bool, true, false, not, ◌&&◌, ◌||◌, List, [], ◌∷◌, ◌++◌, Option, none, some, ltb, leb,
  ◌==◌, if◌then◌else◌, Bytes, codes, bytes_eq, join, decimal, get_or, length, lines_of,
}
use slipgate.Config.{
  TunnelConfig, BackendConfig, Config, DnsttConfig, SlipstreamConfig, VayDnsConfig, NaiveConfig,
  StunTlsConfig, is_empty, one_of, transport_dnstt, transport_slipstream, transport_vaydns,
  transport_naive, transport_stuntls, transport_ssh, transport_socks, transport_external,
  resolved_idle_timeout, resolved_keep_alive, resolved_client_id_size,
}
use slipgate.Config.Store.{get_backend}
use slipgate.Host.{
  on_option, on_result, Action, Env, World, Error, plain, Result, ok, err, Done, pure, raise, done,
  gets, attempt, ignore, lift, ◌>>=◌, ◌>>◌, error_text,
}
use slipgate.Host.Machine.{run, write_file, mkdir_all, path_join}
use slipgate.Host.Format.{quote}
use slipgate.Service.{
  ServiceUnit, system_group, tunnel_service_name, create, start, stop, restart, remove, status,
}

abbrev pub bin_dir : Bytes
bin_dir = codes "/usr/local/bin"

abbrev tunnels_dir : Bytes
tunnels_dir = codes "/etc/slipgate/tunnels"

-- `config.TunnelDir`
unfoldable pub tunnel_dir : Bytes → Bytes
tunnel_dir tag = path_join tunnels_dir tag

abbrev pub default_mtu : ℕ
default_mtu = 1232

abbrev pub decoy_sites : List Bytes
decoy_sites =
    codes "https://www.wikipedia.org"
    ∷ codes "https://www.apache.org"
    ∷ codes "https://www.kernel.org"
    ∷ codes "https://www.mozilla.org"
    ∷ codes "https://www.python.org"
    ∷ codes "https://www.rust-lang.org"
    ∷ codes "https://www.gnu.org"
    ∷ codes "https://www.ietf.org"
    ∷ codes "https://www.w3.org"
    ∷ codes "https://www.unicode.org"
    ∷ codes "https://www.archive.org"
    ∷ codes "https://www.debian.org"
    ∷ codes "https://www.ubuntu.com"
    ∷ codes "https://www.freebsd.org"
    ∷ codes "https://www.openbsd.org"
    ∷ []

-- words with a space between them
unfoldable pub words : List Bytes → Bytes
words ws = join ws (codes " ")

-- `backend %q not found`
abbrev missing_backend : Bytes → Error
missing_backend tag = plain (codes "backend " ++ (quote tag ++ codes " not found"))

-- the backend's address, or the error of each of the `build…ExecStart`
unfoldable pub backend_address : Config → TunnelConfig → Result Bytes
backend_address cfg t = elim (get_backend cfg t.backend) [
  | none ↦ err (missing_backend t.backend)
  | some b ↦ ok b.address
]

-- given the part of the tunnel that its transport needs, and the backend's address
unfoldable pub exec_start :
    {A : Type 0} → Option A → Bytes → Result Bytes → (A → Bytes → Bytes) → Result Bytes
exec_start none missing address line = err (plain missing)
exec_start (some a) missing (err e) line = err e
exec_start (some a) missing (ok address) line = ok (line a address)

-- `buildDNSTTExecStart`
unfoldable pub dnstt_line : TunnelConfig → DnsttConfig → Bytes → Bytes
dnstt_line t d address = words (
    path_join bin_dir (codes "dnstt-server")
    ∷ codes "-privkey-file"
    ∷ d.private_key
    ∷ codes "-mtu"
    ∷ decimal (if d.mtu == 0 then default_mtu else d.mtu)
    ∷ t.domain
    ∷ (codes "0.0.0.0:" ++ decimal t.port)
    ∷ address
    ∷ [])

unfoldable pub build_dnstt : TunnelConfig → Config → Result Bytes
build_dnstt t cfg =
    exec_start t.dnstt (codes "dnstt config is nil") (backend_address cfg t) (dnstt_line t)

-- `buildSlipstreamExecStart`
unfoldable pub slipstream_line : TunnelConfig → SlipstreamConfig → Bytes → Bytes
slipstream_line t s address = words (
    path_join bin_dir (codes "slipstream-server")
    ∷ codes "--dns-listen-host"
    ∷ codes "127.0.0.1"
    ∷ codes "--dns-listen-port"
    ∷ decimal t.port
    ∷ codes "--cert"
    ∷ s.cert
    ∷ codes "--key"
    ∷ s.key
    ∷ codes "--domain"
    ∷ t.domain
    ∷ codes "--target-address"
    ∷ address
    ∷ [])

unfoldable pub build_slipstream : TunnelConfig → Config → Result Bytes
build_slipstream t cfg =
    exec_start t.slipstream (codes "slipstream config is nil") (backend_address cfg t)
      (slipstream_line t)

-- `args = append(args, …)` under a condition
unfoldable pub option_args : Bool → List Bytes → List Bytes
option_args c args = if c then args else []

-- `buildVayDNSExecStart`
unfoldable pub vaydns_line : TunnelConfig → VayDnsConfig → Bytes → Bytes
vaydns_line t v address =
    let id_size = resolved_client_id_size (some v) in
    words (
      path_join bin_dir (codes "vaydns-server")
      ∷ codes "-udp"
      ∷ (codes "0.0.0.0:" ++ decimal t.port)
      ∷ codes "-privkey-file"
      ∷ v.private_key
      ∷ codes "-mtu"
      ∷ decimal (if v.mtu == 0 then default_mtu else v.mtu)
      ∷ codes "-domain"
      ∷ t.domain
      ∷ codes "-upstream"
      ∷ address
      ∷ codes "-idle-timeout"
      ∷ resolved_idle_timeout (some v)
      ∷ codes "-keepalive"
      ∷ resolved_keep_alive (some v)
      ∷ (option_args (not (is_empty v.fallback)) (codes "-fallback" ∷ v.fallback ∷ [])
          ++ (option_args v.dnstt_compat (codes "-dnstt-compat" ∷ [])
              ++ (option_args (ltb 0 id_size) (codes "-clientid-size" ∷ decimal id_size ∷ [])
                  ++ (option_args (ltb 0 v.queue_size && not (v.queue_size == 512))
                        (codes "-queue-size" ∷ decimal v.queue_size ∷ [])
                      ++ (option_args (ltb 0 v.kcp_window_size)
                            (codes "-kcp-window-size" ∷ decimal v.kcp_window_size ∷ [])
                          ++ (option_args
                                (not (is_empty v.queue_overflow)
                                  && not (bytes_eq v.queue_overflow (codes "drop")))
                                (codes "-queue-overflow" ∷ v.queue_overflow ∷ [])
                              ++ option_args
                                  (not (is_empty v.record_type)
                                    && not (bytes_eq v.record_type (codes "txt")))
                                  (codes "-record-type" ∷ v.record_type ∷ []))))))))

unfoldable pub build_vaydns : TunnelConfig → Config → Result Bytes
build_vaydns t cfg =
    exec_start t.vaydns (codes "vaydns config is nil") (backend_address cfg t) (vaydns_line t)

-- the unit of a DNS tunnel, the same in builder.go and vaydns.go
unfoldable pub dns_unit : TunnelConfig → Bytes → ServiceUnit
dns_unit t line = record {
  name = tunnel_service_name t.tag;
  description =
      codes "SlipGate tunnel: "
      ++ (t.tag ++ (codes " (" ++ (t.transport ++ (codes "/" ++ (t.backend ++ codes ")")))));
  exec_start = line;
  exec_reload = [];
  user = codes "root";
  group = system_group;
  after = codes "network.target";
  restart = codes "always";
  working_dir = [];
  environment = [];
}

-- `if s == "" { s = default }`
unfoldable pub or_else : Bytes → Bytes → Bytes
or_else s default = if is_empty s then default else s

-- `buildCaddyfile`, given the decoy
unfoldable pub caddyfile : TunnelConfig → NaiveConfig → Bytes → Bytes
caddyfile t n decoy = lines_of (
    codes "{"
    ∷ codes "  admin off"
    ∷ codes "  log {"
    ∷ codes "    output stdout"
    ∷ codes "    level WARN"
    ∷ codes "  }"
    ∷ codes "}"
    ∷ []
    ∷ (codes ":"
        ++ (decimal (if n.port == 0 then 443 else n.port)
            ++ (codes ", " ++ (t.domain ++ codes " {"))))
    ∷ (codes "  tls " ++ n.email)
    ∷ codes "  route {"
    ∷ codes "    forward_proxy {"
    ∷ (codes "      basic_auth "
        ++ (or_else n.user (codes "slipgate")
            ++ (codes " " ++ or_else n.password (codes "slipgate"))))
    ∷ codes "      hide_ip"
    ∷ codes "      hide_via"
    ∷ codes "      probe_resistance"
    ∷ codes "    }"
    ∷ (codes "    reverse_proxy " ++ (decoy ++ codes " {"))
    ∷ codes "      header_up Host {upstream_hostport}"
    ∷ codes "    }"
    ∷ codes "  }"
    ∷ codes "}"
    ∷ [])

abbrev pub naive_user : Bytes
naive_user = codes "slipgate-naive"

-- the unit of `createNaiveService`
unfoldable pub naive_unit : TunnelConfig → Bool → ServiceUnit
naive_unit t warp =
    let dir = tunnel_dir t.tag in
    record {
      name = tunnel_service_name t.tag;
      description = codes "SlipGate NaiveProxy: " ++ t.tag;
      exec_start = words (
          path_join bin_dir (codes "caddy-naive")
          ∷ codes "run"
          ∷ codes "--config"
          ∷ path_join dir (codes "Caddyfile")
          ∷ codes "--adapter"
          ∷ codes "caddyfile"
          ∷ []);
      exec_reload = [];
      user = if warp then naive_user else codes "root";
      group = if warp then system_group else codes "root";
      after = codes "network.target";
      restart = codes "always";
      working_dir = dir;
      environment =
          if warp then (codes "XDG_DATA_HOME=" ++ path_join dir (codes ".caddy")) ∷ [] else [];
    }

-- the unit of `createStunTLSService`
unfoldable pub stuntls_unit : TunnelConfig → StunTlsConfig → Bytes → Bytes → ServiceUnit
stuntls_unit t s exec_path address = record {
  name = tunnel_service_name t.tag;
  description = codes "SlipGate StunTLS: " ++ t.tag;
  exec_start = words (
      exec_path
      ∷ codes "stuntls"
      ∷ codes "serve"
      ∷ codes "--addr"
      ∷ codes "0.0.0.0"
      ∷ codes "--port"
      ∷ decimal (if s.port == 0 then 443 else s.port)
      ∷ codes "--ssh"
      ∷ address
      ∷ codes "--cert"
      ∷ s.cert
      ∷ codes "--key"
      ∷ s.key
      ∷ []);
  exec_reload = [];
  user = codes "root";
  group = system_group;
  after = codes "network.target";
  restart = codes "always";
  working_dir = [];
  environment = [];
}
