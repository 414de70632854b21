-- ===== src/Config/Validation.antt =====
-- internal/config/validation.go. A message of `fmt.Errorf` is a constructor with what it prints.
pub mod Checks
pub mod Complete
pub mod NewTunnel
pub mod Sound
pub mod Agreement
use slipgate.Prelude.{
  ◌≡◌, refl, ℕ, ◌+◌, Bool, true, false, not, ◌&&◌, ◌||◌, List, [], ◌∷◌, Option, none, some, ltb,
  leb, ◌==◌, if◌then◌else◌, Bytes, codes, bytes_eq, is_some,
}
use slipgate.Config.{
  TunnelConfig, RouteConfig, Config, one_of, is_empty, transport_dnstt, transport_slipstream,
  transport_vaydns, transport_naive, transport_stuntls, transport_ssh, transport_socks,
  backend_socks, backend_ssh,
}
use slipgate.Config.Store.{get_tunnel}

pub data Invalid : Type 0 where
  tag_required bad_tag domain_required : Invalid
  duplicate_tag duplicate_domain unknown_transport unknown_backend bad_mode tag_exists :
      Bytes → Invalid
  domain_in_use : Bytes → Bytes → Bytes → Invalid

-- `if err != nil { return err }` before the rest
infixr 2 ◌or_else◌
abbrev pub ◌or_else◌ : Option Invalid → Option Invalid → Option Invalid
none or_else rest = rest
some e or_else rest = some e

abbrev pub fail_if : Bool → Invalid → Option Invalid
fail_if b e = if b then some e else none

abbrev is_lower : ℕ → Bool
is_lower c = leb b'a' c && leb c b'z'

abbrev is_tag_byte : ℕ → Bool
is_tag_byte c = is_lower c || (leb b'0' c && leb c b'9') || c == b'-'

unfoldable pub all_tag_bytes : Bytes → Bool
all_tag_bytes [] = true
all_tag_bytes (c ∷ s) = is_tag_byte c && all_tag_bytes s

-- ^[a-z][a-z0-9-]*$
unfoldable pub matches_tag : Bytes → Bool
matches_tag [] = false
matches_tag (c ∷ s) = is_lower c && all_tag_bytes s

unfoldable pub validate_tag : Bytes → Option Invalid
validate_tag tag =
    fail_if (is_empty tag) tag_required or_else fail_if (not (matches_tag tag)) bad_tag

unfoldable pub validate_transport : Bytes → Option Invalid
validate_transport transport =
    fail_if
      (not (
        one_of transport (
          transport_dnstt ∷ transport_slipstream ∷ transport_vaydns ∷ transport_naive
          ∷ transport_stuntls ∷ transport_ssh ∷ transport_socks ∷ [])))
      (unknown_transport transport)

unfoldable pub validate_backend : Bytes → Option Invalid
validate_backend backend =
    fail_if (not (one_of backend (backend_socks ∷ backend_ssh ∷ []))) (unknown_backend backend)

-- All combinations are valid.
abbrev validate_transport_backend : Bytes → Bytes → Option Invalid
validate_transport_backend transport backend = none

-- t.Domain == "" && t.Transport != … && …
unfoldable pub misses_domain : TunnelConfig → Bool
misses_domain t =
    is_empty t.domain
    && not (bytes_eq t.transport transport_ssh)
    && not (bytes_eq t.transport transport_socks)
    && not (bytes_eq t.transport transport_stuntls)

-- the set of the tags, or of the domains, seen so far
unfoldable pub contains : Bytes → List Bytes → Bool
contains k [] = false
contains k (x ∷ xs) = bytes_eq x k || contains k xs

-- one round of the loop of `Validate`
unfoldable pub check_tunnel : List Bytes → List Bytes → TunnelConfig → Option Invalid
check_tunnel tags domains t =
    validate_tag t.tag
    or_else fail_if (contains t.tag tags) (duplicate_tag t.tag)
    or_else fail_if (misses_domain t) domain_required
    or_else fail_if (not (is_empty t.domain) && contains t.domain domains)
        (duplicate_domain t.domain)
    or_else validate_transport t.transport
    or_else validate_backend t.backend
    or_else validate_transport_backend t.transport t.backend

unfoldable pub add_domain : TunnelConfig → List Bytes → List Bytes
add_domain t domains = if is_empty t.domain then domains else t.domain ∷ domains

unfoldable pub check_tunnels : List Bytes → List Bytes → List TunnelConfig → Option Invalid
check_tunnels tags domains [] = none
check_tunnels tags domains (t ∷ ts) =
    check_tunnel tags domains t or_else check_tunnels (t.tag ∷ tags) (add_domain t domains) ts

unfoldable pub check_mode : RouteConfig → Option Invalid
check_mode r =
    fail_if (not (one_of r.mode ([] ∷ codes "single" ∷ codes "multi" ∷ []))) (bad_mode r.mode)

-- `none` is the error `nil`
unfoldable pub validate : Config → Option Invalid
validate c = check_tunnels [] [] c.tunnels or_else check_mode c.route

-- the loop of `ValidateNewTunnel` over the tunnels that exist
unfoldable pub check_domain_use : TunnelConfig → List TunnelConfig → Option Invalid
check_domain_use t [] = none
check_domain_use t (e ∷ es) =
    let rest = check_domain_use t es in
    if not (is_empty t.domain) && bytes_eq e.domain t.domain && bytes_eq e.backend t.backend
    then some (domain_in_use t.domain t.backend e.tag)
    else rest

unfoldable pub validate_new_tunnel : Config → TunnelConfig → Option Invalid
validate_new_tunnel c t =
    validate_tag t.tag
    or_else fail_if (is_some (get_tunnel c t.tag)) (tag_exists t.tag)
    or_else fail_if (misses_domain t) domain_required
    or_else check_domain_use t c.tunnels
    or_else validate_transport_backend t.transport t.backend

-- The result of `ValidatePassword`: the position is that of the refused byte. The code walks the
-- runes of the password; no byte of a longer rune is ':' or a control character.
pub data BadPassword : Type 0 where
  empty_password : BadPassword
  colon control : ℕ → BadPassword

unfoldable pub check_bytes : ℕ → Bytes → Option BadPassword
check_bytes i [] = none
check_bytes i (c ∷ s) =
    let rest = check_bytes (i + 1) s in
    if c == b':' then some (colon i) else if ltb c 0x20 || c == 0x7F then some (control i) else rest

unfoldable pub validate_password : Bytes → Option BadPassword
validate_password p = if is_empty p then some empty_password else check_bytes 0 p

pub or_else-eq-none : (a b : Option Invalid) → (a or_else b) ≡ none → (a ≡ none) × (b ≡ none)
or_else-eq-none none b h = (refl, h)
or_else-eq-none (some e) b h = cc

pub fail_if-eq-none : (b : Bool) (e : Invalid) → fail_if b e ≡ none → b ≡ false
fail_if-eq-none true e h = cc
fail_if-eq-none false e h = refl
