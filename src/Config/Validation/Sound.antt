-- ===== src/Config/Validation/Sound.antt =====
-- `Validate` of internal/config/validation.go against the description of a well-formed configuration.
use slipgate.Prelude.{
  ◌≡◌, ◌≢◌, ◌⊎◌, inl, inr, refl, sym, ◌∙◌, false, List, [], ◌∷◌, none, arith, Bytes, codes,
  bytes_eq_iff, All,
}
use slipgate.Config.{TunnelConfig, RouteConfig, Config, one_of}
use slipgate.Config.Store.{find_key, tunnel_key}
use slipgate.Config.Store.Laws.{Unique}
use slipgate.Config.Validation.{
  contains, add_domain, check_tunnels, check_mode, or_else-eq-none, validate,
}
use slipgate.Config.Validation.Checks.{
  DistinctDomains, IsTunnel, IsWellFormed, is_empty-cases, Checked, check_tunnel_sound,
}

-- none of these keys stands in the list
abbrev Fresh : (TunnelConfig → Bytes) → List TunnelConfig → List Bytes → Type 0
Fresh key ts = All (λ k. All (λ (u : TunnelConfig). key u ≢ k) ts)

Fresh-cons :
    (key : TunnelConfig → Bytes) (t : TunnelConfig) (ts : List TunnelConfig) (ks : List Bytes)
    → contains (key t) ks ≡ false
    → Fresh key ts ks
    → Fresh key (t ∷ ts) ks
unfolding contains
Fresh-cons key t ts [] h f = tt
Fresh-cons key t ts (k ∷ ks) h f =
    ((ground (arith, bytes_eq_iff k (key t)), f.0), Fresh-cons key t ts ks (ground arith) f.1)

Fresh-cons_empty :
    (key : TunnelConfig → Bytes) (t : TunnelConfig) (ts : List TunnelConfig) (ks : List Bytes)
    → key t ≡ []
    → All (λ k. k ≢ []) ks
    → Fresh key ts ks
    → Fresh key (t ∷ ts) ks
Fresh-cons_empty key t ts [] e n f = tt
Fresh-cons_empty key t ts (k ∷ ks) e n f =
    ((λ same. n.0 (sym same ∙ e), f.0), Fresh-cons_empty key t ts ks e n.1 f.1)

find_key-eq-none :
    (k : Bytes) (ts : List TunnelConfig)
    → All (λ (u : TunnelConfig). u.tag ≢ k) ts
    → find_key tunnel_key k ts ≡ none
unfolding find_key
find_key-eq-none k [] h = refl
find_key-eq-none k (t ∷ ts) h = ground (arith, bytes_eq_iff t.tag k, find_key-eq-none k ts h.1, h.0)

record AllChecked (tags domains : List Bytes) (ts : List TunnelConfig) : Type 0 where
  pub tunnels_ok : All IsTunnel ts
  pub tags_distinct : Unique tunnel_key ts
  pub domains_distinct : DistinctDomains ts
  pub tags_fresh : Fresh tunnel_key ts tags
  pub domains_fresh : Fresh (λ t. t.domain) ts domains

-- A round whose tunnel has no domain, and one whose tunnel has one.
module _ (tags domains : List Bytes) (t : TunnelConfig) (ts : List TunnelConfig)
    (ok : Checked tags domains t) where
  check_tunnels-cons_empty :
      t.domain ≡ []
      → All (λ k. k ≢ []) domains
      → AllChecked (t.tag ∷ tags) domains ts
      → AllChecked tags domains (t ∷ ts)
  check_tunnels-cons_empty e n rest = record {
    tunnels_ok = (ok.tunnel, rest.tunnels_ok);
    tags_distinct = (find_key-eq-none t.tag ts rest.tags_fresh.0, rest.tags_distinct);
    domains_distinct = (inl e, rest.domains_distinct);
    tags_fresh = Fresh-cons tunnel_key t ts tags ok.new_tag rest.tags_fresh.1;
    domains_fresh = Fresh-cons_empty (λ u. u.domain) t ts domains e n rest.domains_fresh;
  }

  check_tunnels-cons_named :
      t.domain ≢ []
      → AllChecked (t.tag ∷ tags) (t.domain ∷ domains) ts
      → AllChecked tags domains (t ∷ ts)
  check_tunnels-cons_named ne rest = record {
    tunnels_ok = (ok.tunnel, rest.tunnels_ok);
    tags_distinct = (find_key-eq-none t.tag ts rest.tags_fresh.0, rest.tags_distinct);
    domains_distinct = (inr rest.domains_fresh.0, rest.domains_distinct);
    tags_fresh = Fresh-cons tunnel_key t ts tags ok.new_tag rest.tags_fresh.1;
    domains_fresh = Fresh-cons (λ u. u.domain) t ts domains (ok.new_domain ne) rest.domains_fresh.1;
  }

Fresh-nil : (key : TunnelConfig → Bytes) (ks : List Bytes) → Fresh key [] ks
Fresh-nil key [] = tt
Fresh-nil key (k ∷ ks) = (tt, Fresh-nil key ks)

check_tunnels_sound :
    (ts : List TunnelConfig) (tags domains : List Bytes)
    → All (λ k. k ≢ []) domains
    → check_tunnels tags domains ts ≡ none
    → AllChecked tags domains ts
unfolding check_tunnels add_domain
check_tunnels_sound [] tags domains n h = record {
  tunnels_ok = tt;
  tags_distinct = tt;
  domains_distinct = tt;
  tags_fresh = Fresh-nil tunnel_key tags;
  domains_fresh = Fresh-nil (λ (u : TunnelConfig). u.domain) domains;
}
check_tunnels_sound (t ∷ ts) tags domains n h =
    let (first, later) = or_else-eq-none _ _ h in
    let ok = check_tunnel_sound tags domains t first in
    elim (is_empty-cases t.domain) [
      | inl (e, b) ↦
          check_tunnels-cons_empty tags domains t ts ok e n
            (check_tunnels_sound ts (t.tag ∷ tags) domains n (rw b at later))
      | inr (ne, b) ↦
          check_tunnels-cons_named tags domains t ts ok ne
            (check_tunnels_sound ts (t.tag ∷ tags) (t.domain ∷ domains) (ne, n) (rw b at later))
    ]

check_mode_sound :
    (r : RouteConfig)
    → check_mode r ≡ none
    → (r.mode ≡ []) ⊎ ((r.mode ≡ codes "single") ⊎ (r.mode ≡ codes "multi"))
unfolding check_mode one_of
check_mode_sound r h = ground (
  arith,
  bytes_eq_iff r.mode [],
  bytes_eq_iff r.mode (codes "single"),
  bytes_eq_iff r.mode (codes "multi"),
)

-- A configuration that `Validate` accepts has tags of the documented form, all distinct; distinct domains,
-- present wherever the transport needs one; known transports and backends; and a known route mode.
pub validate-IsWellFormed : (c : Config) → validate c ≡ none → IsWellFormed c
unfolding validate
validate-IsWellFormed c h =
    let (tunnels, mode) = or_else-eq-none _ _ h in
    let all = check_tunnels_sound c.tunnels [] [] tt tunnels in
    record {
      tunnels_ok = all.tunnels_ok;
      tags_distinct = all.tags_distinct;
      domains_distinct = all.domains_distinct;
      mode_ok = check_mode_sound c.route mode;
    }
