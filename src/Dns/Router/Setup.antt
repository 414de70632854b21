-- ===== src/Dns/Router/Setup.antt =====
-- The routes that `Serve` sets up from a configuration.
use slipgate.Prelude.{
  ℕ, ◌≡◌, ◌≢◌, refl, sym, ap, ◌∙◌, Bool, true, ◌&&◌, List, [], ◌∷◌, ◌++◌, Option, none, some, arith,
  if◌then◌else◌, Bytes, bytes_eq, bytes_eq_iff, to_lower, All, Bool-cases, inl, inr,
}
use slipgate.Prelude.Table.{text_eq, load, load-store}
use slipgate.Config.{
  TunnelConfig, Config, DnsttConfig, VayDnsConfig, SlipstreamConfig, is_dns_tunnel,
}
use slipgate.Dns.Routes.{add_dot, add_route, set_default, find_backend}
use slipgate.Dns.Routes.Normal.{to_lower-add_dot}
use slipgate.Dns.Router.{
  Router, Files, new_router, add_verify_route, register_key, register_cert, register_dnstt,
  register_vaydns, register_slipstream, register_verify, backend_addr, serve_tunnel, serve_tunnels,
  serve_default, serve,
}

register_key-routes :
    (files : Files) (r : Router) (domain key : Bytes) (mtu : ℕ)
    → (register_key files r domain key mtu).routes ≡ r.routes
unfolding register_key add_verify_route
register_key-routes files r domain key mtu = ground arith

register_cert-routes :
    (files : Files) (r : Router) (domain cert : Bytes)
    → (register_cert files r domain cert).routes ≡ r.routes
unfolding register_cert add_verify_route
register_cert-routes files r domain cert = ground arith

module _ (files : Files) (r : Router) (domain : Bytes) where
  register_dnstt-routes :
      (o : Option DnsttConfig) → (register_dnstt files r domain o).routes ≡ r.routes
  unfolding register_dnstt
  register_dnstt-routes none = refl
  register_dnstt-routes (some c) = register_key-routes files r domain c.public_key c.mtu

  register_vaydns-routes :
      (o : Option VayDnsConfig) → (register_vaydns files r domain o).routes ≡ r.routes
  unfolding register_vaydns
  register_vaydns-routes none = refl
  register_vaydns-routes (some c) = register_key-routes files r domain c.public_key c.mtu

  register_slipstream-routes :
      (o : Option SlipstreamConfig) → (register_slipstream files r domain o).routes ≡ r.routes
  unfolding register_slipstream
  register_slipstream-routes none = refl
  register_slipstream-routes (some c) = register_cert-routes files r domain c.cert

-- The registration of keys leaves the routes alone.
register_verify-routes :
    (files : Files) (r : Router) (t : TunnelConfig) → (register_verify files r t).routes ≡ r.routes
unfolding register_verify
register_verify-routes files r t = ground (
  arith,
  register_dnstt-routes files r t.domain t.dnstt,
  register_vaydns-routes files r t.domain t.vaydns,
  register_slipstream-routes files r t.domain t.slipstream,
)

-- A tunnel that gets a route: enabled, over DNS.
abbrev pub is_routed : TunnelConfig → Bool
is_routed t = t.enabled && is_dns_tunnel t

-- the key of a domain in the table of routes
abbrev pub route_key : Bytes → Bytes
route_key domain = to_lower (add_dot domain)

load-serve_tunnel :
    (files : Files) (r : Router) (t : TunnelConfig) (k : Bytes)
    → load k (serve_tunnel files r t).routes.table ≡ (
        if is_routed t && bytes_eq (route_key t.domain) k
        then some (backend_addr t.port)
        else load k r.routes.table)
unfolding serve_tunnel
load-serve_tunnel files r t k = elim (Bool-cases (is_routed t)) [
  | inr out ↦ rw out
  | inl on ↦
      rw (on, register_verify-routes)
        (unfold add_route in load-store (route_key t.domain) k (backend_addr t.port) r.routes.table)
]

load-serve_tunnels :
    (files : Files) (ts : List TunnelConfig) (r : Router) (k : Bytes)
    → All (λ (t : TunnelConfig). is_routed t ≡ true → route_key t.domain ≢ k) ts
    → load k (serve_tunnels files r ts).routes.table ≡ load k r.routes.table
unfolding serve_tunnels
load-serve_tunnels files [] r k h = refl
load-serve_tunnels files (t ∷ ts) r k h =
    load-serve_tunnels files ts (serve_tunnel files r t) k h.1
    ∙ ground (arith, load-serve_tunnel files r t k, h.0, bytes_eq_iff (route_key t.domain) k)

serve_tunnels-append :
    (files : Files) (ss ts : List TunnelConfig) (r : Router)
    → serve_tunnels files r (ss ++ ts) ≡ serve_tunnels files (serve_tunnels files r ss) ts
unfolding serve_tunnels
serve_tunnels-append files [] ts r = refl
serve_tunnels-append files (s ∷ ss) ts r = serve_tunnels-append files ss ts (serve_tunnel files r s)

serve_default-table : (c : Config) (r : Router) → (serve_default c r).routes.table ≡ r.routes.table
unfolding serve_default set_default
serve_default-table c r = ground arith

-- A name that differs from the domain only in case and in the final dot goes to the last routed tunnel of that domain: after `Serve` the
-- router forwards it to the port of that tunnel, whatever tunnels stand before it.
pub serve-find_backend :
    (files : Files) (c : Config) (before : List TunnelConfig) (t : TunnelConfig)
    (after : List TunnelConfig) (visited : List (Bytes × Bytes)) (name : Bytes)
    → c.tunnels ≡ before ++ (t ∷ after)
    → is_routed t ≡ true
    → All (λ (u : TunnelConfig). is_routed u ≡ true → route_key u.domain ≢ route_key t.domain) after
    → add_dot (to_lower name) ≡ add_dot (to_lower t.domain)
    → find_backend visited (serve files c).routes name ≡ backend_addr t.port
unfolding serve find_backend
serve-find_backend files c before t after visited name split on last same =
    let r0 = new_router c.listen in
    let r1 = serve_tunnels files r0 before in
    let key : add_dot (to_lower name) ≡ route_key t.domain =
      same ∙ sym (to_lower-add_dot t.domain) in
    let here : load (route_key t.domain) (serve_tunnel files r1 t).routes.table
        ≡ some (backend_addr t.port) =
      ground (
        arith,
        load-serve_tunnel files r1 t (route_key t.domain),
        bytes_eq_iff (route_key t.domain) (route_key t.domain),
      ) in
    let kept =
      load-serve_tunnels files after (serve_tunnel files r1 t) (route_key t.domain) last ∙ here in
    let all : serve_tunnels files r0 c.tunnels
        ≡ serve_tunnels files (serve_tunnel files r1 t) after =
      ap (serve_tunnels files r0) split
      ∙ serve_tunnels-append files before (t ∷ after) r0
      ∙ unfold serve_tunnels in refl in
    let found : load (add_dot (to_lower name))
          (serve_default c (serve_tunnels files r0 c.tunnels)).routes.table
        ≡ some (backend_addr t.port) =
      ap (λ (k : Bytes). load k (serve_default c (serve_tunnels files r0 c.tunnels)).routes.table)
        key
      ∙ ap (load (route_key t.domain)) (
          serve_default-table c (serve_tunnels files r0 c.tunnels)
          ∙ ap (λ (r : Router). r.routes.table) all)
      ∙ kept in
    rw (found, find_backend)
