-- ===== src/Config/Validation/Agreement.antt =====
-- `ValidateNewTunnel` against `Validate`, which `config import` runs, in internal/config/validation.go.
use mathlib.Core.Path.{subst}
use slipgate.Prelude.{
  ◌≡◌, ◌≢◌, ap, sym, ◌∙◌, false, List, [], ◌∷◌, ◌++◌, none, some, arith, Bytes, bytes_eq, All,
  Bool-cases, inl, inr,
}
use slipgate.Config.{TunnelConfig, Config}
use slipgate.Config.Store.{find_key, tunnel_key, get_tunnel, add_tunnel}
use slipgate.Config.Validation.{validate_tag, misses_domain, validate, validate_new_tunnel}
use slipgate.Config.Validation.Checks.{DistinctDomains, IsApart, is_empty-false}
use slipgate.Config.Validation.Sound.{validate-IsWellFormed}
use slipgate.Config.Validation.NewTunnel.{check_domain_use_complete}

All-last :
    (P : TunnelConfig → Type 0) (ts : List TunnelConfig) (t : TunnelConfig)
    → All P (ts ++ (t ∷ []))
    → P t
All-last P [] t h = h.0
All-last P (u ∷ ts) t h = All-last P ts t h.1

All-found :
    (P : TunnelConfig → Type 0) (ts : List TunnelConfig) (tag : Bytes) (e : TunnelConfig)
    → find_key tunnel_key tag ts ≡ some e
    → All P ts
    → P e
unfolding find_key
All-found P [] tag e f h = cc
All-found P (u ∷ ts) tag e f h = elim (Bool-cases (bytes_eq u.tag tag)) [
  | inl same ↦ let this : u ≡ e = ground arith in subst P this h.0
  | inr other ↦ All-found P ts tag e (rw other at f) h.1
]

shared_domain :
    (ts : List TunnelConfig) (tag : Bytes) (e t : TunnelConfig)
    → find_key tunnel_key tag ts ≡ some e
    → e.domain ≡ t.domain
    → t.domain ≢ []
    → ¬ DistinctDomains (ts ++ (t ∷ []))
unfolding find_key
shared_domain [] tag e t f same ne d = cc
shared_domain (u ∷ ts) tag e t f same ne d = elim (Bool-cases (bytes_eq u.tag tag)) [
  | inl here ↦
      let this : u ≡ e = ground arith in
      let u_domain : u.domain ≡ t.domain = ap (λ (x : TunnelConfig). x.domain) this ∙ same in
      elim d.0 [
        | inl empty ↦ absurd (ne (sym u_domain ∙ empty))
        | inr apart ↦ All-last (λ v. v.domain ≢ u.domain) ts t apart (sym u_domain)
      ]
  | inr other ↦ shared_domain ts tag e t (rw other at f) same ne d.1
]

misses_domain-named : (t : TunnelConfig) → t.domain ≢ [] → misses_domain t ≡ false
unfolding misses_domain
misses_domain-named t ne = ground (arith, is_empty-false t.domain ne)

-- A tunnel with a valid free tag that shares its domain with a tunnel of another backend, and with none
-- of its own backend, passes `ValidateNewTunnel`; the configuration that `AddTunnel` then makes does not pass
-- `Validate`.
pub shared_domain-disagreement :
    (c : Config) (e t : TunnelConfig)
    → validate_tag t.tag ≡ none
    → get_tunnel c t.tag ≡ none
    → get_tunnel c e.tag ≡ some e
    → e.domain ≡ t.domain
    → t.domain ≢ []
    → All (IsApart t) c.tunnels
    → (validate_new_tunnel c t ≡ none) × (validate (add_tunnel c t) ≢ none)
unfolding validate_new_tunnel get_tunnel add_tunnel
shared_domain-disagreement c e t tag fresh found same ne apart = (
  rw (tag, fresh, misses_domain-named t ne, check_domain_use_complete t c.tunnels apart),
  λ ok.
      shared_domain c.tunnels e.tag e t found same ne
        (validate-IsWellFormed (add_tunnel c t) ok).domains_distinct,
)
