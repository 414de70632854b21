-- ===== src/Dns/Router.antt =====
-- `Router` of internal/dnsrouter/router.go: the whole of `handleQuery`, `getBackend`, and the set-up
-- of `Serve`. The sockets are parameters: which addresses can be dialled, and whether a write
-- succeeds. Files, PEM and SHA-256 are parameters of the set-up.
pub mod Query
pub mod Setup
use slipgate.Prelude.{
  ℕ, ◌+◌, Bool, true, false, not, ◌&&◌, List, [], ◌∷◌, ◌++◌, Option, none, some, ltb, ◌==◌,
  if◌then◌else◌, Bytes, codes, bytes_eq, to_lower, split, trim_suffix, trim_space, hex_decode,
  decimal, length, is_some,
}
use slipgate.Prelude.Table.{Table, text_eq, load, store}
use slipgate.Config.{
  TunnelConfig, Config, DnsttConfig, VayDnsConfig, SlipstreamConfig, is_dns_tunnel, is_empty,
  transport_dnstt, transport_vaydns, transport_slipstream,
}
use slipgate.Config.Store.{get_tunnel}
use slipgate.Dns.Parser.{extract_domain}
use slipgate.Dns.Routes.{Routes, no_routes, add_route, set_default, find_backend}
use slipgate.Dns.Verify.{VerifyRoute, Env, Verdict, not_probe, reply, panic, handle_verify}
use slipgate.Dns.Pending.{BackendConn, new_conn, forward}

pub record Router : Type 0 where
  pub listen_addr : Bytes
  pub routes : Routes
  pub verify_routes : List VerifyRoute
  pub backends : Table Bytes BackendConn

-- `New`
abbrev pub new_router : Bytes → Router
new_router addr = record {
  listen_addr = addr;
  routes = no_routes;
  verify_routes = [];
  backends = [];
}

-- `AddVerifyRoute`
unfoldable pub add_verify_route : Router → Bytes → Bytes → ℕ → Router
add_verify_route r domain key mtu = record r {
  verify_routes =
      r.verify_routes
      ++ (record {
        domain_labels = split (to_lower (trim_suffix domain (codes "."))) b'.';
        pubkey = key;
        mtu = mtu;
      }
          ∷ []);
}

-- What the outside decides for one query: the order of ranging over the routes, whether a backend
-- can be dialled, whether the write to it succeeds, and the time.
pub record Outside : Type 0 where
  pub visited : List (Bytes × Bytes)
  pub dial : Bytes → Bool
  pub written : Bool
  pub now : ℕ

-- `getBackend`; the reader and the cleaner that it starts are the steps of `Dns.Pending.Routing`.
unfoldable pub get_backend : Outside → Router → Bytes → Option BackendConn
get_backend out r addr = elim (load addr r.backends) [
  | some bc ↦ some bc
  | none ↦ if out.dial addr then some new_conn else none
]

-- What a packet from a client leads to.
pub data Outcome : Type 0 where
  verified : Bytes → Outcome
  crashed : Outcome
  dropped : Outcome
  forwarded : Bytes → Bytes → Outcome

-- The part behind `handleVerify` and the lookup of the backend.
unfoldable pub forward_to : Outside → Router → Bytes → Bytes → Bytes → Router × Outcome
forward_to out r packet client backend = elim (get_backend out r backend) [
  | none ↦ (r, dropped)
  | some bc ↦
      let (bc', wire) = forward bc packet client out.now out.written in
      if ltb (length packet) 2
      then (record r { backends = store backend bc r.backends }, dropped)
      else (
        record r { backends = store backend bc' r.backends },
        elim wire [ none ↦ dropped | some w ↦ forwarded backend w ],
      )
]

-- The domain and its backend; "" is no domain, or no backend.
unfoldable pub route_query : Outside → Router → Bytes → Bytes → Router × Outcome
route_query out r packet client =
    let domain = extract_domain packet in
    let backend = find_backend out.visited r.routes domain in
    if is_empty domain
    then (r, dropped)
    else if is_empty backend
    then (r, dropped)
    else forward_to out r packet client backend

-- `handleQuery`
unfoldable pub handle_query : Env → Outside → Router → Bytes → Bytes → Router × Outcome
handle_query env out r packet client = elim (handle_verify env r.verify_routes packet) [
  | reply response ↦ (r, verified response)
  | panic ↦ (r, crashed)
  | not_probe ↦ route_query out r packet client
]

-- What `Serve` reads from outside: files, and the digests of PEM blocks.
pub record Files : Type 0 where
  pub exists : Bytes → Bool
  pub read_file : Bytes → Option Bytes
  pub pem_decode : Bytes → Option Bytes
  pub sha256 : Bytes → Bytes

-- `loadPubkey`
unfoldable pub load_pubkey : Files → Bytes → Option Bytes
load_pubkey files key_or_path =
    if files.exists key_or_path
    then elim (files.read_file key_or_path) [
      | none ↦ none
      | some content ↦ hex_decode (trim_space content)
    ]
    else hex_decode key_or_path

-- `certToHMACKey`
unfoldable pub cert_to_hmac_key : Files → Bytes → Option Bytes
cert_to_hmac_key files path = elim (files.read_file path) [
  | none ↦ none
  | some content ↦ elim (files.pem_decode content) [
    | none ↦ none
    | some block ↦ some (files.sha256 block)
  ]
]

-- the branch of DNSTT and VayDNS: a public key, and an MTU with its default
unfoldable pub register_key : Files → Router → Bytes → Bytes → ℕ → Router
register_key files r domain public_key mtu =
    if is_empty public_key then r else elim (load_pubkey files public_key) [
      | none ↦ r
      | some key ↦ add_verify_route r domain key (if mtu == 0 then 1232 else mtu)
    ]

unfoldable pub register_cert : Files → Router → Bytes → Bytes → Router
register_cert files r domain cert =
    if is_empty cert then r else elim (cert_to_hmac_key files cert) [
      | none ↦ r
      | some key ↦ add_verify_route r domain key 0
    ]

unfoldable pub register_dnstt : Files → Router → Bytes → Option DnsttConfig → Router
register_dnstt files r domain none = r
register_dnstt files r domain (some c) = register_key files r domain c.public_key c.mtu

unfoldable pub register_vaydns : Files → Router → Bytes → Option VayDnsConfig → Router
register_vaydns files r domain none = r
register_vaydns files r domain (some c) = register_key files r domain c.public_key c.mtu

unfoldable pub register_slipstream : Files → Router → Bytes → Option SlipstreamConfig → Router
register_slipstream files r domain none = r
register_slipstream files r domain (some c) = register_cert files r domain c.cert

-- the switch on the transport
unfoldable pub register_verify : Files → Router → TunnelConfig → Router
register_verify files r t =
    if bytes_eq t.transport transport_dnstt
    then register_dnstt files r t.domain t.dnstt
    else if bytes_eq t.transport transport_vaydns
    then register_vaydns files r t.domain t.vaydns
    else if bytes_eq t.transport transport_slipstream
    then register_slipstream files r t.domain t.slipstream
    else r

-- fmt.Sprintf("127.0.0.1:%d", port)
abbrev pub backend_addr : ℕ → Bytes
backend_addr port = codes "127.0.0.1:" ++ decimal port

-- one round of the loop of `Serve`
unfoldable pub serve_tunnel : Files → Router → TunnelConfig → Router
serve_tunnel files r t =
    if not (t.enabled && is_dns_tunnel t)
    then r
    else register_verify files
        (record r { routes = add_route r.routes t.domain (backend_addr t.port) }) t

unfoldable pub serve_tunnels : Files → Router → List TunnelConfig → Router
serve_tunnels files r [] = r
serve_tunnels files r (t ∷ ts) = serve_tunnels files (serve_tunnel files r t) ts

-- the default tunnel
unfoldable pub serve_default : Config → Router → Router
serve_default c r = if is_empty c.route.default then r else elim (get_tunnel c c.route.default) [
  | none ↦ r
  | some t ↦
      if is_dns_tunnel t
      then record r { routes = set_default r.routes (backend_addr t.port) }
      else r
]

-- `Serve`, up to `ListenAndServe`
unfoldable pub serve : Files → Config → Router
serve files c = serve_default c (serve_tunnels files (new_router c.listen) c.tunnels)
