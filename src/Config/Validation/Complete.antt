-- ===== src/Config/Validation/Complete.antt =====
-- `Validate` of internal/config/validation.go on well-formed configurations.
use slipgate.Prelude.{
  ◌≡◌, ◌≢◌, ◌⊎◌, ◌↔◌, inl, inr, refl, true, false, List, [], ◌∷◌, none, arith, Bytes, codes,
  bytes_eq, bytes_eq_iff, All, Bool-cases,
}
use slipgate.Config.{
  TunnelConfig, RouteConfig, Config, one_of, is_empty, transport_ssh, transport_socks,
  transport_stuntls, backend_socks, backend_ssh,
}
use slipgate.Config.Store.{find_key, tunnel_key}
use slipgate.Config.Store.Laws.{Unique}
use slipgate.Config.Validation.{
  all_tag_bytes, matches_tag, validate_tag, misses_domain, contains, check_tunnel, add_domain,
  check_tunnels, check_mode, validate, validate_transport, validate_backend,
}
use slipgate.Config.Validation.Sound.{validate-IsWellFormed}
use slipgate.Config.Validation.Checks.{
  IsTagByte, IsTag, DistinctDomains, IsKnownTransport, NeedsNoDomain, IsTunnel, IsWellFormed,
  is_empty-false, is_empty-cases,
}

all_tag_bytes_complete : (s : Bytes) → All IsTagByte s → all_tag_bytes s ≡ true
unfolding all_tag_bytes
all_tag_bytes_complete [] h = refl
all_tag_bytes_complete (c ∷ s) h = ground (arith, h.0, all_tag_bytes_complete s h.1)

pub validate_tag_complete : (tag : Bytes) → IsTag tag → validate_tag tag ≡ none
unfolding validate_tag matches_tag is_empty
validate_tag_complete [] h = elim h [ ]
validate_tag_complete (c ∷ s) (low, high, rest) =
    ground (arith, low, high, all_tag_bytes_complete s rest)

pub misses_domain_complete :
    (t : TunnelConfig) → (t.domain ≢ []) ⊎ NeedsNoDomain t.transport → misses_domain t ≡ false
unfolding misses_domain
misses_domain_complete t (inl ne) = ground (arith, is_empty-false t.domain ne)
misses_domain_complete t (inr none_needed) = ground (
  arith,
  none_needed,
  bytes_eq_iff t.transport transport_ssh,
  bytes_eq_iff t.transport transport_socks,
  bytes_eq_iff t.transport transport_stuntls,
)

validate_transport_complete : (s : Bytes) → IsKnownTransport s → validate_transport s ≡ none
unfolding validate_transport
validate_transport_complete s h = ground (arith, h)

validate_backend_complete :
    (s : Bytes) → (s ≡ backend_socks) ⊎ (s ≡ backend_ssh) → validate_backend s ≡ none
unfolding validate_backend one_of
validate_backend_complete s h =
    ground (arith, h, bytes_eq_iff s backend_socks, bytes_eq_iff s backend_ssh)

check_tunnel_complete :
    (tags domains : List Bytes) (t : TunnelConfig)
    → IsTunnel t
    → contains t.tag tags ≡ false
    → (is_empty t.domain ≡ true) ⊎ (contains t.domain domains ≡ false)
    → check_tunnel tags domains t ≡ none
unfolding check_tunnel
check_tunnel_complete tags domains t ok tag domain = ground (
  arith,
  validate_tag_complete t.tag ok.tag_ok,
  tag,
  domain,
  misses_domain_complete t ok.domain_ok,
  validate_transport_complete t.transport ok.transport_ok,
  validate_backend_complete t.backend ok.backend_ok,
)

-- No key of the tunnels stands among the keys.
abbrev Apart : (TunnelConfig → Bytes) → List TunnelConfig → List Bytes → Type 0
Apart key ts ks = All (λ (u : TunnelConfig). contains (key u) ks ≡ false) ts

Apart-cons :
    (key : TunnelConfig → Bytes) (k : Bytes) (ts : List TunnelConfig) (ks : List Bytes)
    → All (λ (u : TunnelConfig). key u ≢ k) ts
    → Apart key ts ks
    → Apart key ts (k ∷ ks)
unfolding contains
Apart-cons key k [] ks ne ok = tt
Apart-cons key k (t ∷ ts) ks ne ok = (
  ground (arith, ne.0, ok.0, bytes_eq_iff k (key t), bytes_eq_iff (key t) k),
  Apart-cons key k ts ks ne.1 ok.1,
)

fresh_tags :
    (k : Bytes) (ts : List TunnelConfig)
    → find_key tunnel_key k ts ≡ none
    → All (λ (u : TunnelConfig). u.tag ≢ k) ts
unfolding find_key
fresh_tags k [] h = tt
fresh_tags k (t ∷ ts) h = elim (Bool-cases (bytes_eq t.tag k)) [
  | inl e ↦ cc (rw e at h)
  | inr e ↦ (ground (arith, e, bytes_eq_iff t.tag k), fresh_tags k ts (rw e at h))
]

-- The domains of the tunnels, where they have one, do not stand among the domains.
abbrev ApartDomains : List TunnelConfig → List Bytes → Type 0
ApartDomains ts domains =
    All (λ (u : TunnelConfig). (is_empty u.domain ≡ true) ⊎ (contains u.domain domains ≡ false)) ts

ApartDomains-cons :
    (k : Bytes) (ts : List TunnelConfig) (domains : List Bytes)
    → All (λ (u : TunnelConfig). u.domain ≢ k) ts
    → ApartDomains ts domains
    → ApartDomains ts (k ∷ domains)
unfolding contains
ApartDomains-cons k [] domains ne ok = tt
ApartDomains-cons k (t ∷ ts) domains ne (inl e, ok) =
    (inl e, ApartDomains-cons k ts domains ne.1 ok)
ApartDomains-cons k (t ∷ ts) domains ne (inr e, ok) =
    (inr (ground (arith, ne.0, e, bytes_eq_iff k t.domain)), ApartDomains-cons k ts domains ne.1 ok)

ApartDomains-add_domain :
    (t : TunnelConfig) (ts : List TunnelConfig) (domains : List Bytes)
    → (t.domain ≡ []) ⊎ All (λ (u : TunnelConfig). u.domain ≢ t.domain) ts
    → ApartDomains ts domains
    → ApartDomains ts (add_domain t domains)
unfolding add_domain
ApartDomains-add_domain t ts domains distinct ok = elim (is_empty-cases t.domain) [
  | inl (e, b) ↦ rw b ok
  | inr (ne, b) ↦ elim distinct [
    | inl e ↦ absurd (ne e)
    | inr apart ↦ rw b (ApartDomains-cons t.domain ts domains apart ok)
  ]
]

check_tunnels_complete :
    (ts : List TunnelConfig) (tags domains : List Bytes)
    → All IsTunnel ts
    → Unique tunnel_key ts
    → DistinctDomains ts
    → Apart tunnel_key ts tags
    → ApartDomains ts domains
    → check_tunnels tags domains ts ≡ none
unfolding check_tunnels
check_tunnels_complete [] tags domains ok unique distinct apart apart' = refl
check_tunnels_complete (t ∷ ts) tags domains (ok, oks) (fresh, unique) (differs, distinct)
      (tag, tags_apart) (domain, domains_apart) =
    let first : check_tunnel tags domains t ≡ none =
      check_tunnel_complete tags domains t ok tag domain in
    let later : check_tunnels (t.tag ∷ tags) (add_domain t domains) ts ≡ none =
      check_tunnels_complete ts (t.tag ∷ tags) (add_domain t domains) oks unique distinct
        (Apart-cons tunnel_key t.tag ts tags (fresh_tags t.tag ts fresh) tags_apart)
        (ApartDomains-add_domain t ts domains differs domains_apart) in
    rw (first, later) refl

check_mode_complete :
    (r : RouteConfig)
    → (r.mode ≡ []) ⊎ ((r.mode ≡ codes "single") ⊎ (r.mode ≡ codes "multi"))
    → check_mode r ≡ none
unfolding check_mode one_of
check_mode_complete r h = ground (
  arith,
  h,
  bytes_eq_iff r.mode [],
  bytes_eq_iff r.mode (codes "single"),
  bytes_eq_iff r.mode (codes "multi"),
)

nil-Apart : (ts : List TunnelConfig) → Apart tunnel_key ts [] × ApartDomains ts []
unfolding contains
nil-Apart [] = (tt, tt)
nil-Apart (t ∷ ts) = ((refl, (nil-Apart ts).0), (inr refl, (nil-Apart ts).1))

-- `Validate` accepts exactly the configurations whose tags have the documented form and are all distinct, whose domains are distinct
-- and present wherever the transport needs one, whose transports and backends are known, and whose route mode is known.
pub validate-eq-none_iff : (c : Config) → (validate c ≡ none) ↔ IsWellFormed c
unfolding validate
validate-eq-none_iff c = (
  validate-IsWellFormed c,
  λ ok.
      let apart = nil-Apart c.tunnels in
      let tunnels : check_tunnels [] [] c.tunnels ≡ none =
        check_tunnels_complete c.tunnels [] [] ok.tunnels_ok ok.tags_distinct ok.domains_distinct
          apart.0 apart.1 in
      rw (tunnels, check_mode_complete c.route ok.mode_ok) refl,
)
