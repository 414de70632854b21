-- ===== src/Config/Validation/Checks.antt =====
-- What a well-formed configuration is, stated without the code's sets and loops, and what the checks of one tunnel show.
use slipgate.Prelude.{
  ℕ, ◌≤◌, ◌≡◌, ◌≢◌, ◌⊎◌, inl, inr, refl, ap, true, false, List, [], ◌∷◌, none, arith, Bytes, codes,
  bytes_eq_iff, All,
}
use slipgate.Config.{
  TunnelConfig, Config, one_of, is_empty, transport_dnstt, transport_slipstream, transport_vaydns,
  transport_naive, transport_stuntls, transport_ssh, transport_socks, backend_socks, backend_ssh,
}
use slipgate.Config.Store.{tunnel_key}
use slipgate.Config.Store.Laws.{Unique}
use slipgate.Config.Validation.{
  all_tag_bytes, matches_tag, validate_tag, misses_domain, contains, check_tunnel, or_else-eq-none,
  fail_if-eq-none, validate_transport, validate_backend,
}

-- A lower-case letter, a digit or a hyphen.
abbrev pub IsTagByte : ℕ → Type 0
IsTagByte c = ((b'a' ≤ c) × (c ≤ b'z')) ⊎ (((b'0' ≤ c) × (c ≤ b'9')) ⊎ (c ≡ b'-'))

abbrev pub IsTag : Bytes → Type 0
IsTag [] = ⊥
IsTag (c ∷ s) = (b'a' ≤ c) × (c ≤ b'z') × All IsTagByte s

-- No later tunnel has the domain of an earlier one; tunnels with no domain do not count.
abbrev pub DistinctDomains : List TunnelConfig → Type 0
DistinctDomains [] = Unit
DistinctDomains (t ∷ ts) =
    ((t.domain ≡ []) ⊎ All (λ (u : TunnelConfig). u.domain ≢ t.domain) ts) × DistinctDomains ts

-- Two tunnels that do not clash: they differ in the domain or in the backend.
abbrev pub IsApart : TunnelConfig → TunnelConfig → Type 0
IsApart t e = (e.domain ≢ t.domain) ⊎ (e.backend ≢ t.backend)

abbrev pub IsKnownTransport : Bytes → Type 0
IsKnownTransport s =
    one_of s (
      transport_dnstt ∷ transport_slipstream ∷ transport_vaydns ∷ transport_naive
      ∷ transport_stuntls ∷ transport_ssh ∷ transport_socks ∷ [])
    ≡ true

abbrev pub NeedsNoDomain : Bytes → Type 0
NeedsNoDomain s = (s ≡ transport_ssh) ⊎ ((s ≡ transport_socks) ⊎ (s ≡ transport_stuntls))

pub record IsTunnel (t : TunnelConfig) : Type 0 where
  pub tag_ok : IsTag t.tag
  pub domain_ok : (t.domain ≢ []) ⊎ NeedsNoDomain t.transport
  pub transport_ok : IsKnownTransport t.transport
  pub backend_ok : (t.backend ≡ backend_socks) ⊎ (t.backend ≡ backend_ssh)

pub record IsWellFormed (c : Config) : Type 0 where
  pub tunnels_ok : All IsTunnel c.tunnels
  pub tags_distinct : Unique tunnel_key c.tunnels
  pub domains_distinct : DistinctDomains c.tunnels
  pub mode_ok :
      (c.route.mode ≡ []) ⊎ ((c.route.mode ≡ codes "single") ⊎ (c.route.mode ≡ codes "multi"))

all_tag_bytes_sound : (s : Bytes) → all_tag_bytes s ≡ true → All IsTagByte s
unfolding all_tag_bytes
all_tag_bytes_sound [] h = tt
all_tag_bytes_sound (c ∷ s) h = (ground arith, all_tag_bytes_sound s (ground arith))

pub validate_tag_sound : (tag : Bytes) → validate_tag tag ≡ none → IsTag tag
unfolding validate_tag matches_tag is_empty
validate_tag_sound [] h = cc
validate_tag_sound (c ∷ s) h = (ground arith, ground arith, all_tag_bytes_sound s (ground arith))

validate_transport_sound : (s : Bytes) → validate_transport s ≡ none → IsKnownTransport s
unfolding validate_transport
validate_transport_sound s h = ground arith

validate_backend_sound :
    (s : Bytes) → validate_backend s ≡ none → (s ≡ backend_socks) ⊎ (s ≡ backend_ssh)
unfolding validate_backend one_of
validate_backend_sound s h =
    ground (arith, bytes_eq_iff s backend_socks, bytes_eq_iff s backend_ssh)

misses_domain_sound :
    (t : TunnelConfig) → misses_domain t ≡ false → t.domain ≡ [] → NeedsNoDomain t.transport
unfolding misses_domain is_empty
misses_domain_sound t h e = ground (
  arith,
  ap is_empty e,
  bytes_eq_iff t.transport transport_ssh,
  bytes_eq_iff t.transport transport_socks,
  bytes_eq_iff t.transport transport_stuntls,
)

pub is_empty-false : (s : Bytes) → s ≢ [] → is_empty s ≡ false
unfolding is_empty
is_empty-false [] h = absurd (h refl)
is_empty-false (c ∷ s) h = refl

pub is_empty-cases :
    (s : Bytes) → ((s ≡ []) × (is_empty s ≡ true)) ⊎ ((s ≢ []) × (is_empty s ≡ false))
unfolding is_empty
is_empty-cases [] = inl (refl, refl)
is_empty-cases (c ∷ s) = inr ((λ e. cc), refl)

pub has_domain :
    (t : TunnelConfig) → misses_domain t ≡ false → (t.domain ≢ []) ⊎ NeedsNoDomain t.transport
has_domain t h = elim (is_empty-cases t.domain) [
  | inl (e, b) ↦ inr (misses_domain_sound t h e)
  | inr (ne, b) ↦ inl ne
]

pub record Checked (tags domains : List Bytes) (t : TunnelConfig) : Type 0 where
  pub tunnel : IsTunnel t
  pub new_tag : contains t.tag tags ≡ false
  pub new_domain : t.domain ≢ [] → contains t.domain domains ≡ false

pub check_tunnel_sound :
    (tags domains : List Bytes) (t : TunnelConfig)
    → check_tunnel tags domains t ≡ none
    → Checked tags domains t
unfolding check_tunnel
check_tunnel_sound tags domains t h =
    let (tag, h1) = or_else-eq-none _ _ h in
    let (fresh, h2) = or_else-eq-none _ _ h1 in
    let (needed, h3) = or_else-eq-none _ _ h2 in
    let (unused, h4) = or_else-eq-none _ _ h3 in
    let (transport, h5) = or_else-eq-none _ _ h4 in
    let (backend, h6) = or_else-eq-none _ _ h5 in
    record {
      tunnel = record {
        tag_ok = validate_tag_sound t.tag tag;
        domain_ok = has_domain t (fail_if-eq-none _ _ needed);
        transport_ok = validate_transport_sound t.transport transport;
        backend_ok = validate_backend_sound t.backend backend;
      };
      new_tag = fail_if-eq-none _ _ fresh;
      new_domain = λ n. ground (arith, fail_if-eq-none _ _ unused, is_empty-false t.domain n);
    }
