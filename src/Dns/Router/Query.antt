-- ===== src/Dns/Router/Query.antt =====
-- `handleQuery` as a whole: where a query goes, and what it leaves alone.
use slipgate.Prelude.{
  ℕ, ◌≡◌, ◌≢◌, ◌<◌, ◌≤◌, refl, ap, ◌∙◌, true, false, List, [], ◌∷◌, ◌++◌, none, some, arith, ltb,
  Bytes, codes, bytes_eq_iff, to_lower, join, All, Bool-cases, inl, inr, Option-cases, length,
  length-append, drop, get_u16,
}
use slipgate.Prelude.Table.{text_eq, nat_eq, load, load-store}
use slipgate.Config.{is_empty}
use slipgate.Dns.Parser.{extract_domain}
use slipgate.Dns.Parser.RoundTrip.{wire_labels, IsLabel, extract_domain-wire}
use slipgate.Dns.Routes.{add_dot, add_route, find_backend}
use slipgate.Dns.Routes.Normal.{add_routes, find_backend-add_routes, add_dot-absolute}
use slipgate.Dns.Pending.{BackendConn, forward}
use slipgate.Dns.Pending.Delivery.{forward_total}
use slipgate.Dns.Pending.Routing.{pending_of}
use slipgate.Dns.Verify.{Env, Verdict, not_probe, reply, panic, handle_verify}
use slipgate.Dns.Router.{
  Router, Outside, Outcome, forwarded, get_backend, forward_to, route_query, handle_query,
}

-- the router differs from another at one backend at most
record Frame (r r' : Router) (addr : Bytes) : Type 0 where
  pub routes : r'.routes ≡ r.routes
  pub keys : r'.verify_routes ≡ r.verify_routes
  pub backend : load addr r'.backends ≡ load addr r.backends

forward_to-Frame :
    (out : Outside) (r : Router) (packet client backend addr : Bytes)
    → addr ≢ backend
    → Frame r (forward_to out r packet client backend).0 addr
unfolding forward_to
forward_to-Frame out r packet client backend addr other =
    elim (Option-cases (get_backend out r backend)) [
      | inl failed ↦ rw (failed, forward_to) (record { routes = refl; keys = refl; backend = refl })
      | inr (bc, e) ↦
          let bc' = (forward bc packet client out.now out.written).0 in
          elim (Bool-cases (ltb (length packet) 2)) [
            | inl short ↦
                rw (e, forward_to, short)
                  (record {
                    routes = refl;
                    keys = refl;
                    backend =
                        ground
                          (arith, load-store backend addr bc r.backends, bytes_eq_iff backend addr);
                  })
            | inr long ↦
                rw (e, forward_to, long)
                  (record {
                    routes = refl;
                    keys = refl;
                    backend =
                        ground (
                          arith,
                          load-store backend addr bc' r.backends,
                          bytes_eq_iff backend addr,
                        );
                  })
          ]
    ]

route_query-Frame :
    (out : Outside) (r : Router) (packet client addr : Bytes)
    → addr ≢ find_backend out.visited r.routes (extract_domain packet)
    → Frame r (route_query out r packet client).0 addr
unfolding route_query
route_query-Frame out r packet client addr other =
    let same : Frame r r addr = record { routes = refl; keys = refl; backend = refl } in
    let moved =
      forward_to-Frame out r packet client
        (find_backend out.visited r.routes (extract_domain packet)) addr other in
    elim (Bool-cases (is_empty (extract_domain packet))) [
      | inl no_name ↦ rw no_name same
      | inr name ↦
          elim (Bool-cases (is_empty (find_backend out.visited r.routes (extract_domain packet)))) [
            | inl no_backend ↦ rw (name, no_backend) same
            | inr backend ↦ rw (name, backend) moved
          ]
    ]

-- A query changes neither the routes nor the keys, and of the backends at most the one that its name is routed to.
pub handle_query-frame :
    (env : Env) (out : Outside) (r : Router) (packet client addr : Bytes)
    → addr ≢ find_backend out.visited r.routes (extract_domain packet)
    → ((handle_query env out r packet client).0.routes ≡ r.routes)
      × ((handle_query env out r packet client).0.verify_routes ≡ r.verify_routes)
      × (load addr (handle_query env out r packet client).0.backends ≡ load addr r.backends)
unfolding handle_query
handle_query-frame env out r packet client addr other =
    by_verdict (handle_verify env r.verify_routes packet) refl
  where
    by_verdict :
        (v : Verdict)
        → handle_verify env r.verify_routes packet ≡ v
        → ((handle_query env out r packet client).0.routes ≡ r.routes)
          × ((handle_query env out r packet client).0.verify_routes ≡ r.verify_routes)
          × (load addr (handle_query env out r packet client).0.backends ≡ load addr r.backends)
    by_verdict not_probe e =
        let f = route_query-Frame out r packet client addr other in
        rw (e, handle_query) (f.routes, f.keys, f.backend)
    by_verdict (reply response) e = rw (e, handle_query) (refl, refl, refl)
    by_verdict panic e = rw (e, handle_query) (refl, refl, refl)

-- The packet reaches the backend with nothing changed but the TXID, and waits for its response.
pub record Forwarding (env : Env) (out : Outside) (r : Router) (packet client backend : Bytes)
    : Type 0 where
  pub wire : Bytes
  pub conn : BackendConn
  pub went : (handle_query env out r packet client).1 ≡ forwarded backend wire
  pub unchanged : drop 2 wire ≡ drop 2 packet
  pub kept : load backend (handle_query env out r packet client).0.backends ≡ some conn
  pub waits : load (get_u16 wire 0) conn.pending ≡ some (pending_of packet client out.now)

is_empty-append_dot : (s : Bytes) → is_empty (s ++ codes ".") ≡ false
unfolding is_empty
is_empty-append_dot [] = refl
is_empty-append_dot (c ∷ s) = refl

is_empty-named : (s : Bytes) → s ≢ [] → is_empty s ≡ false
unfolding is_empty
is_empty-named [] h = absurd (h refl)
is_empty-named (c ∷ s) h = refl

module _ (env : Env) (out : Outside) (r : Router) (packet client backend : Bytes) where
  -- the tests of `handleQuery` on a query with a name and a backend
  to_forward :
      handle_verify env r.verify_routes packet ≡ not_probe
      → is_empty (extract_domain packet) ≡ false
      → find_backend out.visited r.routes (extract_domain packet) ≡ backend
      → backend ≢ []
      → handle_query env out r packet client ≡ forward_to out r packet client backend
  unfolding handle_query route_query
  to_forward plain named found ne =
      rw (plain, handle_query, named, found, is_empty-named backend ne)

  forward_to-Forwarding :
      (bc : BackendConn) (free : ℕ)
      → handle_query env out r packet client ≡ forward_to out r packet client backend
      → 2 ≤ length packet
      → get_backend out r backend ≡ some bc
      → out.written ≡ true
      → free < 65536
      → load free bc.pending ≡ none
      → Forwarding env out r packet client backend
  unfolding forward_to
  forward_to-Forwarding bc free to long e ok lt none_there =
      let test : ltb (length packet) 2 ≡ false = ground arith in
      let (wire, s) = forward_total bc packet client out.now free lt none_there in
      let conn = (forward bc packet client out.now true).0 in
      record {
        wire = wire;
        conn = conn;
        went = ap (λ (p : Router × Outcome). p.1) to ∙ rw (e, forward_to, test, ok, s.out);
        unchanged = s.unchanged;
        kept =
            ap (λ (p : Router × Outcome). load backend p.0.backends) to
            ∙ rw (e, forward_to, test, ok)
                (ground (
                  arith,
                  load-store backend backend conn r.backends,
                  bytes_eq_iff backend backend,
                ));
        waits = s.waits;
      }

-- A query that is no probe, for a name of labels of 1 to 191 bytes that is a registered domain in any case, goes to the backend of
-- the domain, which is registered with or without its final dot and may have any other domains registered before and
-- after it: if that backend has an address that can be reached, the write succeeds and one of its TXIDs is free, the packet reaches it
-- with nothing changed but the TXID, and waits for its response in the table of that backend.
pub handle_query-forwarded :
    (env : Env) (out : Outside) (r : Router) (header l : Bytes) (ls : List Bytes)
    (rest domain backend client : Bytes) (later : List (Bytes × Bytes)) (bc : BackendConn)
    (free : ℕ)
    → length header ≡ 12
    → All IsLabel (l ∷ ls)
    → to_lower (join (l ∷ ls) (codes ".") ++ codes ".") ≡ to_lower (add_dot domain)
    → All (λ (e : Bytes × Bytes). add_dot (to_lower e.0) ≢ add_dot (to_lower domain)) later
    → backend ≢ []
    → handle_verify env r.verify_routes (header ++ (wire_labels (l ∷ ls) ++ (0 ∷ rest))) ≡ not_probe
    → get_backend out r backend ≡ some bc
    → out.written ≡ true
    → free < 65536
    → load free bc.pending ≡ none
    → Forwarding env out
        (record r { routes = add_routes (add_route r.routes domain backend) later })
        (header ++ (wire_labels (l ∷ ls) ++ (0 ∷ rest)))
        client
        backend
handle_query-forwarded env out r header l ls rest domain backend client later bc free h labels same
      apart ne plain e ok lt none_there =
    let packet = header ++ (wire_labels (l ∷ ls) ++ (0 ∷ rest)) in
    let r' : Router = record r { routes = add_routes (add_route r.routes domain backend) later } in
    let dotted = join (l ∷ ls) (codes ".") in
    let is_name = extract_domain-wire header l ls rest h labels in
    let named : is_empty (extract_domain packet) ≡ false =
      ap is_empty is_name ∙ is_empty-append_dot dotted in
    let found : find_backend out.visited r'.routes (extract_domain packet) ≡ backend =
      ap (find_backend out.visited r'.routes) is_name
      ∙ find_backend-add_routes out.visited r.routes domain (dotted ++ codes ".") backend later
          (add_dot-absolute dotted domain same) apart in
    let long : 2 ≤ length packet =
      omega (arith, length-append header (wire_labels (l ∷ ls) ++ (0 ∷ rest))) in
    forward_to-Forwarding env out r' packet client backend bc free
      (to_forward env out r' packet client backend plain named found ne) long
      (unfold get_backend in e) ok lt none_there
