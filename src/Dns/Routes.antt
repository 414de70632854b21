-- ===== src/Dns/Routes.antt =====
-- The routing table of internal/dnsrouter/router.go.
pub mod Lookup
pub mod Normal
use slipgate.Prelude.{
  ℕ, Bool, ◌||◌, List, [], ◌∷◌, ◌++◌, Option, none, some, if◌then◌else◌, Bytes, codes, bytes_eq,
  has_suffix, to_lower,
}
use slipgate.Prelude.Table.{Table, text_eq, load, store}

pub record Routes : Type 0 where
  pub table : Table Bytes Bytes
  pub default_dst : Bytes

abbrev pub no_routes : Routes
no_routes = record { table = []; default_dst = [] }

-- if !strings.HasSuffix(domain, ".") { domain += "." }
unfoldable pub add_dot : Bytes → Bytes
add_dot domain = if has_suffix domain (codes ".") then domain else domain ++ codes "."

-- `AddRoute`
unfoldable pub add_route : Routes → Bytes → Bytes → Routes
unfolding add_dot
add_route r domain backend = record r { table = store (to_lower (add_dot domain)) backend r.table }

-- `SetDefault`
unfoldable pub set_default : Routes → Bytes → Routes
set_default r backend = record r { default_dst = backend }

-- strings.HasSuffix(domain, "."+routeDomain) || domain == routeDomain
unfoldable pub route_matches : Bytes → Bytes → Bool
route_matches domain route = has_suffix domain (codes "." ++ route) || bytes_eq domain route

-- The loop of `findBackend`. Go does not fix the order of a range over a map: `visited` is the
-- entries in the order of this range.
unfoldable pub first_match : Bytes → List (Bytes × Bytes) → Bytes → Bytes
first_match domain [] default = default
first_match domain ((route, dst) ∷ visited) default =
    if route_matches domain route then dst else first_match domain visited default

-- `findBackend`
unfoldable pub find_backend : List (Bytes × Bytes) → Routes → Bytes → Bytes
unfolding add_dot
find_backend visited r domain = elim (load (add_dot (to_lower domain)) r.table) [
  | some dst ↦ dst
  | none ↦ first_match (add_dot (to_lower domain)) visited r.default_dst
]
