-- ===== src/Handlers/Add.antt =====
-- internal/handlers/tunnel_add.go: `addSingleTunnel`, and the helpers of system_install.go that
-- it uses.
pub mod Both
pub mod Whole
pub mod Tagged
pub mod Routed
use slipgate.Prelude.{
  ℕ, suc, ◌+◌, Bool, true, false, not, ◌&&◌, ◌||◌, List, [], ◌∷◌, ◌++◌, Option, none, some, ltb,
  leb, ◌==◌, if◌then◌else◌, Bytes, codes, bytes_eq, length, decimal, trim_space,
}
use slipgate.Prelude.Table.{load, text_eq}
use slipgate.Config.{
  TunnelConfig, DnsttConfig, SlipstreamConfig, VayDnsConfig, NaiveConfig, StunTlsConfig,
  RouteConfig, Config, is_empty, is_dns_tunnel, has_managed_service, transport_dnstt,
  transport_slipstream, transport_vaydns, transport_naive, transport_stuntls, transport_external,
  resolved_idle_timeout, resolved_keep_alive, resolved_client_id_size,
}
use slipgate.Config.Store.{add_tunnel}
use slipgate.Config.Ports.{next_available_port, first_free, used_ports}
use slipgate.Config.Validation.{Invalid, validate_new_tunnel}
use slipgate.Host.{
  Action, Env, Error, plain, Result, ok, err, Done, info, success, warning, pure, raise, done,
  attempt, ignore, on_option, on_result, get_config, set_config, say, ◌>>=◌, ◌>>◌, error_text,
}
use slipgate.Host.Machine.{read_file, write_file, mkdir_all, path_join}
use slipgate.Host.Format.{quote, scan_int}
use slipgate.Actions.{Args, SelectOption, get_arg, fail, fail_because}
use slipgate.Actions.Ids.{tunnel_add}
use slipgate.Prompt.{string, select}
use slipgate.Transport.{tunnel_dir, default_mtu, or_else}
use slipgate.Transport.Create.{create_service, random_decoy_url}
use slipgate.Routing.{add_route}
use slipgate.Network.{allow_port}
use slipgate.Network.Ports.{disable_resolved_stub, free_port}
use slipgate.Keys.{Crypto, generate_keys, import_keys, import_key_pair}
use slipgate.Handlers.{set_route, count_dns, save_or_fail}
use slipgate.Handlers.Lifecycle.{or_fail}
use slipgate.Handlers.Packages.{Packages}

-- `config.TransportBinaries`
unfoldable pub binary_of : Bytes → Option Bytes
binary_of transport =
    if bytes_eq transport transport_dnstt
    then some (codes "dnstt-server")
    else if bytes_eq transport transport_slipstream
    then some (codes "slipstream-server")
    else if bytes_eq transport transport_vaydns
    then some (codes "vaydns-server")
    else if bytes_eq transport transport_naive
    then some (codes "caddy-naive")
    else none

-- `config.ValidVayDNSRecordTypes`, as choices
abbrev record_types : List SelectOption
record_types =
    record { value = codes "txt"; label = codes "txt (default)" }
    ∷ record { value = codes "cname"; label = codes "cname" }
    ∷ record { value = codes "a"; label = codes "a" }
    ∷ record { value = codes "aaaa"; label = codes "aaaa" }
    ∷ record { value = codes "mx"; label = codes "mx" }
    ∷ record { value = codes "ns"; label = codes "ns" }
    ∷ record { value = codes "srv"; label = codes "srv" }
    ∷ record { value = codes "null"; label = codes "null" }
    ∷ record { value = codes "caa"; label = codes "caa" }
    ∷ []

-- the number in a text, or another
unfoldable pub number_or : ℕ → Bytes → ℕ
number_or default text = elim (scan_int text) [ none ↦ default | some n ↦ n ]

-- a tunnel with no settings of its transport
unfoldable pub bare_tunnel : Bytes → Bytes → Bytes → Bytes → ℕ → TunnelConfig
bare_tunnel tag transport backend domain port = record {
  tag = tag;
  transport = transport;
  backend = backend;
  domain = domain;
  port = port;
  enabled = true;
  dnstt = none;
  slipstream = none;
  vaydns = none;
  naive = none;
  stuntls = none;
}

-- cfg.AddTunnel(tunnel), and the active and default tunnel when there is no active one
unfoldable pub insert_tunnel : TunnelConfig → Config → Config
insert_tunnel t c =
    let added = add_tunnel c t in
    if is_empty c.route.active
    then set_route (λ r. record r { active = t.tag; default = t.tag }) added
    else added

-- single mode, with more than one DNS tunnel
unfoldable pub is_multi_now : TunnelConfig → Config → Bool
is_multi_now t c =
    is_dns_tunnel t && bytes_eq c.route.mode (codes "single") && ltb 1 (count_dns c.tunnels)

unfoldable pub to_multi : Config → Config
to_multi = set_route (λ r. record r { mode = codes "multi" })

module _ ⦃env : Env⦄ (crypto : Crypto) (message_of : Invalid → Bytes) (packages : Packages) where
  -- `transport.EnsureInstalled`
  unfoldable pub ensure_transport : Bytes → Action Done
  ensure_transport transport =
      or_fail (on_option (binary_of transport) done packages.ensure_installed) tunnel_add
        (codes "transport binary not available")

  -- `copyFile`
  unfoldable pub copy_file : Bytes → Bytes → Action Done
  copy_file source target = read_file source >>= write_file target

  -- the keypair of the tunnel before, copied
  unfoldable pub share_keys : Bytes → Bytes → Bytes → Action Bytes
  share_keys shared private_path public_path = do
    say info (codes "Reusing shared keypair...")
    or_fail (copy_file (path_join shared (codes "server.key")) private_path) tunnel_add
        (codes "failed to copy shared private key")
    or_fail (copy_file (path_join shared (codes "server.pub")) public_path) tunnel_add
        (codes "failed to copy shared public key")
    text ← or_fail (read_file public_path) tunnel_add (codes "failed to read shared public key")
    pure (trim_space text)

  -- switch: imported, shared or new keys
  unfoldable pub setup_keys : Args → Bytes → Bytes → Bytes → Action Bytes
  setup_keys args shared private_path public_path =
      let private = get_arg args (codes "private-key") in
      let public = get_arg args (codes "public-key") in
      if not (is_empty private) && not (is_empty public)
      then (say info (codes "Importing provided keypair...")
          >> or_fail (import_key_pair crypto private public private_path public_path) tunnel_add
              (codes "key setup failed"))
      else if not (is_empty private)
      then (say info (codes "Importing private key and deriving public key...")
          >> or_fail (import_keys crypto private private_path public_path) tunnel_add
              (codes "key setup failed"))
      else if not (is_empty shared)
      then share_keys shared private_path public_path
      else (say info (codes "Generating Curve25519 keypair...")
          >> or_fail (generate_keys crypto private_path public_path) tunnel_add
              (codes "key setup failed"))

  unfoldable pub ask_mtu : Action ℕ
  ask_mtu = do text ← string (codes "MTU") (decimal default_mtu); pure (number_or default_mtu text)

  -- an argument, or a question
  unfoldable pub arg_or : Args → Bytes → Action Bytes → Action Bytes
  arg_or args key question = let v = get_arg args key in if is_empty v then question else pure v

  unfoldable pub setup_dnstt : Args → Bytes → TunnelConfig → Action TunnelConfig
  setup_dnstt args shared t = do
    let dir = tunnel_dir t.tag
    let private_path = path_join dir (codes "server.key")
    key ← setup_keys args shared private_path (path_join dir (codes "server.pub"))
    mtu ← ask_mtu
    say success (codes "Public key: " ++ key)
    pure (record t {
      dnstt = some (record { mtu = mtu; private_key = private_path; public_key = key });
    })

  unfoldable pub setup_slipstream : TunnelConfig → Action TunnelConfig
  setup_slipstream t = do
    let dir = tunnel_dir t.tag
    let cert = path_join dir (codes "cert.pem")
    let key = path_join dir (codes "key.pem")
    say info (codes "Generating self-signed certificate...")
    or_fail (packages.generate_self_signed cert key t.domain) tunnel_add
        (codes "cert generation failed")
    pure (record t { slipstream = some (record { cert = cert; key = key }) })

  -- the settings of VayDNS that are asked for after the MTU
  unfoldable pub ask_vaydns : Args → VayDnsConfig → Action VayDnsConfig
  ask_vaydns args v = do
    idle ←
        arg_or args (codes "idle-timeout")
          (string (codes "Idle timeout") (resolved_idle_timeout (some v)))
    alive ←
        arg_or args (codes "keep-alive")
          (string (codes "Keep alive") (resolved_keep_alive (some v)))
    size ←
        arg_or args (codes "clientid-size")
          (string (codes "Client ID size") (decimal (resolved_client_id_size (some v))))
    queue ← arg_or args (codes "queue-size") (string (codes "Queue size") (codes "512"))
    pure (record v {
      idle_timeout = idle;
      keep_alive = alive;
      client_id_size = number_or 0 size;
      queue_size = number_or 0 queue;
    })

  unfoldable pub setup_vaydns : Args → Bytes → TunnelConfig → Action TunnelConfig
  setup_vaydns args shared t = do
    let dir = tunnel_dir t.tag
    let private_path = path_join dir (codes "server.key")
    key ← setup_keys args shared private_path (path_join dir (codes "server.pub"))
    kind ← arg_or args (codes "record-type") (select (codes "DNS record type") record_types)
    mtu ← ask_mtu
    v ← ask_vaydns args (record {
      mtu = mtu;
      private_key = private_path;
      public_key = key;
      idle_timeout = [];
      keep_alive = [];
      fallback = [];
      dnstt_compat = false;
      client_id_size = 0;
      queue_size = 0;
      kcp_window_size = 0;
      queue_overflow = [];
      record_type = kind;
    })
    say success (codes "Public key: " ++ key)
    pure (record t { vaydns = some v })

  unfoldable pub setup_stuntls : TunnelConfig → Action TunnelConfig
  setup_stuntls t = do
    let dir = tunnel_dir t.tag
    let cert = path_join dir (codes "cert.pem")
    let key = path_join dir (codes "key.pem")
    say info (codes "Generating self-signed TLS certificate...")
    or_fail (packages.generate_self_signed cert key t.tag) tunnel_add
        (codes "cert generation failed")
    text ← string (codes "TLS listen port") (codes "443")
    pure
        (record t { stuntls = some (record { cert = cert; key = key; port = number_or 443 text }) })

  -- a port from 5301 on that no tunnel has; the search ends, as it does for the other tunnels
  unfoldable pub setup_external : Args → TunnelConfig → Action TunnelConfig
  setup_external args t = do
    c ← get_config
    on_option (first_free (suc (length c.tunnels)) 5301 (used_ports c.tunnels))
        (raise (plain (codes "no port")))
        (λ default. do
          text ← arg_or args (codes "port") (string (codes "Target UDP port") (decimal default))
          pure (record t { port = number_or default text }))

  unfoldable pub setup_naive : Args → TunnelConfig → Action TunnelConfig
  setup_naive args t = do
    email ← arg_or args (codes "email") (string (codes "Email (for Let's Encrypt)") [])
    decoy ← arg_or args (codes "decoy-url") (random_decoy_url >>= string (codes "Decoy URL"))
    text ← string (codes "Port") (codes "443")
    pure (record t {
      naive = some (record {
        email = email;
        decoy_url = decoy;
        port = number_or 443 text;
        user = [];
        password = [];
      });
    })

  -- switch transport_
  unfoldable pub setup_transport : Args → Bytes → TunnelConfig → Action TunnelConfig
  setup_transport args shared t =
      if bytes_eq t.transport transport_dnstt
      then setup_dnstt args shared t
      else if bytes_eq t.transport transport_slipstream
      then setup_slipstream t
      else if bytes_eq t.transport transport_vaydns
      then setup_vaydns args shared t
      else if bytes_eq t.transport transport_stuntls
      then setup_stuntls t
      else if bytes_eq t.transport transport_external
      then setup_external args t
      else if bytes_eq t.transport transport_naive
      then setup_naive args t
      else pure t

  unfoldable pub enter_multi : TunnelConfig → Action Done
  enter_multi t = do
    c ← get_config
    if is_multi_now t c
        then (set_config to_multi >> say info (codes "Switched to multi-tunnel mode"))
        else done

  unfoldable pub prepare_dns : TunnelConfig → Action Done
  prepare_dns t =
      if is_dns_tunnel t
      then (do
        ignore (allow_port 53 (codes "udp"))
        ignore disable_resolved_stub
        if ltb 0 t.port && has_managed_service t then free_port t.port (codes "udp") else done)
      else done

  unfoldable pub register_route : TunnelConfig → Action Done
  register_route t = do
    r ← attempt (add_route t)
    on_result r (λ _. done)
        (λ e. say warning (codes "Failed to register with router: " ++ error_text e))

  unfoldable pub announce : TunnelConfig → Action Done
  announce t =
      if bytes_eq t.transport transport_external
      then say success (
          codes "Tunnel "
          ++ (quote t.tag
              ++ (codes " created "
                  ++ (226 ∷ 128 ∷ 148 ∷ codes " DNS queries for ")
                  ++ (t.domain ++ (codes " will route to 127.0.0.1:" ++ decimal t.port)))))
      else (do
        say success (codes "Tunnel " ++ (quote t.tag ++ codes " created and started"))
        say info (codes "Share with: slipgate tunnel share " ++ t.tag))

  -- the service and the route of a tunnel that is saved
  unfoldable pub start_tunnel : TunnelConfig → Action Done
  start_tunnel t = do
    prepare_dns t
    if bytes_eq t.transport transport_external
        then done
        else say info (codes "Creating systemd service...")
    c ← get_config
    or_fail (create_service t c) tunnel_add (codes "failed to create service")
    register_route t
    announce t

  unfoldable pub store_tunnel : TunnelConfig → Action Done
  store_tunnel t = do set_config (insert_tunnel t); enter_multi t; save_or_fail tunnel_add

  -- the directory and the settings of a tunnel that passes the checks
  unfoldable pub build_tunnel : Args → Bytes → TunnelConfig → Action Done
  build_tunnel args shared t = do
    or_fail (mkdir_all (tunnel_dir t.tag)) tunnel_add (codes "failed to create tunnel dir")
    whole ← setup_transport args shared t
    store_tunnel whole
    start_tunnel whole

  -- once the tunnel passes `ValidateNewTunnel`
  unfoldable pub add_checked : Args → Bytes → TunnelConfig → Config → Action Done
  add_checked args shared t c =
      on_option (validate_new_tunnel c t) (build_tunnel args shared t)
        (λ e. fail_because tunnel_add (codes "validation failed") (plain (message_of e)))

  -- if tunnel.HasManagedService() { tunnel.Port = cfg.NextAvailablePort() }
  unfoldable pub assign_port : TunnelConfig → Config → TunnelConfig
  assign_port t c =
      if has_managed_service t
      then elim (next_available_port c) [ none ↦ t | some port ↦ record t { port = port } ]
      else t

  -- `addSingleTunnel`
  unfoldable pub add_single_tunnel : Args → Bytes → Bytes → Bytes → Bytes → Bytes → Action Done
  add_single_tunnel args transport backend tag domain shared = do
    say info (codes "Checking transport binary...")
    ensure_transport transport
    get_config >>= λ c.
        add_checked args shared (assign_port (bare_tunnel tag transport backend domain 0) c) c
