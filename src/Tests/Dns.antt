-- ===== src/Tests/Dns.antt =====
-- A query and a history of one backend, and the theorems on internal/dnsrouter at them.
use slipgate.Prelude.{
  ℕ, ◌+◌, ◌≡◌, ◌≢◌, ◌≤◌, refl, ap, true, false, List, [], ◌∷◌, ◌++◌, none, some, arith, Bytes,
  codes, bytes_eq, has_suffix, to_lower, lower_byte, join, length, drop, get_u16,
}
use slipgate.Prelude.Table.{text_eq, nat_eq, load, store}
use slipgate.Config.{is_dns_tunnel, one_of}
use slipgate.Dns.Parser.{extract_domain}
use slipgate.Dns.Parser.RoundTrip.{wire_labels, extract_domain-wire}
use slipgate.Dns.Routes.{
  Routes, no_routes, add_dot, add_route, route_matches, first_match, find_backend,
}
use slipgate.Dns.Routes.Lookup.{SameEntries, find_backend_nested}
use slipgate.Dns.Verify.{read_question, txt_question, handle_verify}
use slipgate.Dns.Pending.{PendingQuery, new_conn, reserve, forward, respond, put_txid}
use slipgate.Dns.Pending.Reserve.{IsReserved, reserve_total}
use slipgate.Dns.Pending.Routing.{Event, query, answer, tick, step, run_from}
use slipgate.Dns.Pending.Delivery.{Asked, respond-Asked, forward-respond}
use slipgate.Dns.Pending.Counts.{queries, deliveries, deliveries-le-queries}
use slipgate.Dns.Router.{
  Router, new_router, Outside, get_backend, Files, handle_query, serve, backend_addr,
}
use slipgate.Dns.Routes.Normal.{add_routes}
use slipgate.Dns.Router.Query.{Forwarding, handle_query-forwarded, handle_query-frame}
use slipgate.Dns.Router.Setup.{serve-find_backend}
use slipgate.Tests.Config.{first, second, config}
use slipgate.Tests.Verify.{env, header}

extract_domain-wire_example :
    extract_domain
      (header ++ (wire_labels (codes "a" ∷ codes "com" ∷ []) ++ (0 ∷ 0 ∷ 1 ∷ 0 ∷ 1 ∷ [])))
    ≡ join (codes "a" ∷ codes "com" ∷ []) (codes ".") ++ codes "."
extract_domain-wire_example =
    extract_domain-wire header (codes "a") (codes "com" ∷ []) (0 ∷ 1 ∷ 0 ∷ 1 ∷ []) refl
      ((omega arith, omega arith), ((omega arith, omega arith), tt))

-- Two nested route domains with their backends, and a name under both.
abbrev route_a : Bytes × Bytes
route_a = (codes "b.com.", codes "127.0.0.1:5310")

abbrev route_b : Bytes × Bytes
route_b = (codes "com.", codes "127.0.0.1:53100")

abbrev routes : Routes
routes = record { table = route_a ∷ route_b ∷ []; default_dst = codes "127.0.0.1:9" }

find_backend_nested_example :
    SameEntries (route_a ∷ route_b ∷ []) (route_b ∷ route_a ∷ [])
    × (find_backend (route_a ∷ route_b ∷ []) routes (codes "x.b.com")
        ≢ find_backend (route_b ∷ route_a ∷ []) routes (codes "x.b.com"))
unfolding add_dot route_matches load has_suffix bytes_eq to_lower lower_byte
find_backend_nested_example =
    find_backend_nested route_a route_b [] routes (codes "x.b.com") refl refl refl (λ e. cc)

-- The packets of two clients with one TXID.
abbrev packet : Bytes
packet = 7 ∷ 9 ∷ 1 ∷ []

abbrev history : List Event
history = query packet (codes "ann") 3 true ∷ query packet (codes "bob") 2 true ∷ []

abbrev answered : Bytes
answered = 0 ∷ 1 ∷ 128 ∷ []

respond-Asked_example :
    (pq : PendingQuery) × Asked history pq
    × (codes "bob" ≡ pq.client_addr)
    × (7 ∷ 9 ∷ 128 ∷ [] ≡ put_txid pq.original_txid answered)
unfolding run_from step forward respond reserve load store nat_eq
respond-Asked_example = respond-Asked history answered (codes "bob") (7 ∷ 9 ∷ 128 ∷ []) refl

reserve_total_example :
    (id : ℕ) × ((reserve 65536 new_conn
        (record { client_addr = []; original_txid = 7; timestamp = 0 })).1
      ≡ some id)
    × IsReserved new_conn
        (reserve 65536 new_conn (record { client_addr = []; original_txid = 7; timestamp = 0 })).0
        (record { client_addr = []; original_txid = 7; timestamp = 0 })
        id
unfolding load
reserve_total_example =
    reserve_total new_conn (record { client_addr = []; original_txid = 7; timestamp = 0 }) 5
      (omega arith) refl

-- Between the query and its response: a query of another client with the same TXID, its response, and a tick.
abbrev between : List Event
between = tick 9 ∷ answer (0 ∷ 2 ∷ []) ∷ query packet (codes "bob") 2 true ∷ []

forward-respond_example :
    (drop 2 (0 ∷ 1 ∷ 1 ∷ []) ≡ drop 2 packet)
    × ((respond (run_from (forward new_conn packet (codes "ann") 0 true).0 between) answered).1
        ≡ some (codes "ann", put_txid (get_u16 packet 0) answered))
unfolding forward reserve load
forward-respond_example =
    forward-respond new_conn packet (codes "ann") (0 ∷ 1 ∷ 1 ∷ []) 0 between answered refl
      (omega arith) refl (omega arith, ((λ e. cc), tt))

deliveries-le-queries_example :
    length (run_from new_conn (answer answered ∷ history)).pending
      + deliveries (answer answered ∷ history)
    ≤ queries (answer answered ∷ history)
deliveries-le-queries_example = deliveries-le-queries (answer answered ∷ history)

abbrev out : Outside
out = record { visited = []; dial = λ addr. true; written = true; now = 0 }

abbrev router : Router
router = new_router (codes "0.0.0.0:53")

-- An A query for "A.com".
abbrev lookup : Bytes
lookup = header ++ (wire_labels (codes "A" ∷ codes "com" ∷ []) ++ (0 ∷ 0 ∷ 1 ∷ 0 ∷ 1 ∷ []))

abbrev backend : Bytes
backend = codes "127.0.0.1:5310"

handle_query-forwarded_example :
    Forwarding env out
      (record router {
        routes =
            add_routes
              (add_route no_routes (codes "a.com") backend)
              ((codes "b.com.org", codes "127.0.0.1:5399") ∷ []);
      })
      lookup
      (codes "ann")
      backend
unfolding get_backend load handle_verify txt_question read_question join add_dot to_lower lower_byte
    has_suffix bytes_eq
handle_query-forwarded_example =
    handle_query-forwarded env out router header (codes "A") (codes "com" ∷ []) (0 ∷ 1 ∷ 0 ∷ 1 ∷ [])
      (codes "a.com") backend (codes "ann") ((codes "b.com.org", codes "127.0.0.1:5399") ∷ [])
      new_conn 5 refl ((omega arith, omega arith), ((omega arith, omega arith), tt)) refl
      ((λ e. absurd (omega (arith, ap length e))), tt) (λ e. cc) refl refl refl (omega arith) refl

handle_query-frame_example :
    ((handle_query env out router lookup (codes "ann")).0.routes ≡ router.routes)
    × ((handle_query env out router lookup (codes "ann")).0.verify_routes ≡ router.verify_routes)
    × (load backend (handle_query env out router lookup (codes "ann")).0.backends
        ≡ load backend router.backends)
unfolding find_backend first_match load
handle_query-frame_example =
    handle_query-frame env out router lookup (codes "ann") backend (λ e. cc)

abbrev files : Files
files = record {
  exists = λ path. false;
  read_file = λ path. none;
  pem_decode = λ text. none;
  sha256 = λ text. text;
}

serve-find_backend_example :
    find_backend [] (serve files config).routes (codes "A.com.") ≡ backend_addr 5310
unfolding is_dns_tunnel one_of bytes_eq add_dot has_suffix to_lower lower_byte
serve-find_backend_example =
    serve-find_backend files config [] first (second ∷ []) [] (codes "A.com.") refl refl
      ((λ e. cc), tt) refl
