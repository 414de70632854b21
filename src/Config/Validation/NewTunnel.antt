-- ===== src/Config/Validation/NewTunnel.antt =====
-- `ValidateNewTunnel` of internal/config/validation.go against a description of new tunnels.
use slipgate.Prelude.{
  refl, true, ◌↔◌, ap, ◌≡◌, ◌≢◌, ◌⊎◌, inl, inr, List, [], ◌∷◌, none, arith, bytes_eq_iff, All,
}
use slipgate.Config.{is_empty, TunnelConfig, Config}
use slipgate.Config.Store.{get_tunnel}
use slipgate.Config.Validation.{
  or_else-eq-none, fail_if-eq-none, check_domain_use, validate_new_tunnel,
}
use slipgate.Config.Validation.Complete.{validate_tag_complete, misses_domain_complete}
use slipgate.Config.Validation.Checks.{
  IsTag, IsApart, NeedsNoDomain, validate_tag_sound, is_empty-false, is_empty-cases, has_domain,
}

check_domain_use_sound :
    (t : TunnelConfig) (es : List TunnelConfig)
    → check_domain_use t es ≡ none
    → t.domain ≢ []
    → All (IsApart t) es
unfolding check_domain_use
check_domain_use_sound t [] h ne = tt
check_domain_use_sound t (e ∷ es) h ne = (
  ground (
    arith,
    is_empty-false t.domain ne,
    bytes_eq_iff e.domain t.domain,
    bytes_eq_iff e.backend t.backend,
  ),
  check_domain_use_sound t es (ground arith) ne,
)

domain_use :
    (t : TunnelConfig) (es : List TunnelConfig)
    → check_domain_use t es ≡ none
    → (t.domain ≡ []) ⊎ All (IsApart t) es
domain_use t es h = elim (is_empty-cases t.domain) [
  | inl (e, b) ↦ inl e
  | inr (ne, b) ↦ inr (check_domain_use_sound t es h ne)
]

pub check_domain_use_complete :
    (t : TunnelConfig) (es : List TunnelConfig) → All (IsApart t) es → check_domain_use t es ≡ none
unfolding check_domain_use
check_domain_use_complete t [] h = refl
check_domain_use_complete t (e ∷ es) h = ground (
  arith,
  check_domain_use_complete t es h.1,
  bytes_eq_iff e.domain t.domain,
  bytes_eq_iff e.backend t.backend,
  h.0,
)

-- What a new tunnel must satisfy: a tag of the documented form that no tunnel has, a domain where the transport needs one, and no
-- tunnel of the same domain and backend.
pub record IsNew (c : Config) (t : TunnelConfig) : Type 0 where
  pub tag_ok : IsTag t.tag
  pub fresh : get_tunnel c t.tag ≡ none
  pub domain_ok : (t.domain ≢ []) ⊎ NeedsNoDomain t.transport
  pub apart : (t.domain ≡ []) ⊎ All (IsApart t) c.tunnels

validate_new_tunnel_sound :
    (c : Config) (t : TunnelConfig) → validate_new_tunnel c t ≡ none → IsNew c t
unfolding validate_new_tunnel
validate_new_tunnel_sound c t h =
    let (tag, h1) = or_else-eq-none _ _ h in
    let (fresh, h2) = or_else-eq-none _ _ h1 in
    let (needed, h3) = or_else-eq-none _ _ h2 in
    let (unused, h4) = or_else-eq-none _ _ h3 in
    record {
      tag_ok = validate_tag_sound t.tag tag;
      fresh = ground (arith, fail_if-eq-none _ _ fresh);
      domain_ok = has_domain t (fail_if-eq-none _ _ needed);
      apart = domain_use t c.tunnels unused;
    }

check_domain_use_nameless :
    (t : TunnelConfig) (es : List TunnelConfig)
    → is_empty t.domain ≡ true
    → check_domain_use t es ≡ none
unfolding check_domain_use
check_domain_use_nameless t [] h = refl
check_domain_use_nameless t (e ∷ es) h = ground (arith, h, check_domain_use_nameless t es h)

domain_unused :
    (t : TunnelConfig) (es : List TunnelConfig)
    → (t.domain ≡ []) ⊎ All (IsApart t) es
    → check_domain_use t es ≡ none
unfolding is_empty
domain_unused t es (inl e) = check_domain_use_nameless t es (ap is_empty e)
domain_unused t es (inr apart) = check_domain_use_complete t es apart

-- `ValidateNewTunnel` accepts exactly the tunnels that have a tag of the documented form that no tunnel has, a domain
-- if the transport needs one, and, if they have a domain, differ from every tunnel in the domain or the backend.
pub validate_new_tunnel-eq-none_iff :
    (c : Config) (t : TunnelConfig) → (validate_new_tunnel c t ≡ none) ↔ IsNew c t
unfolding validate_new_tunnel
validate_new_tunnel-eq-none_iff c t = (
  validate_new_tunnel_sound c t,
  λ ok.
      rw
        (
          validate_tag_complete t.tag ok.tag_ok,
          ok.fresh,
          misses_domain_complete t ok.domain_ok,
          domain_unused t c.tunnels ok.apart,
        )
        refl,
)
