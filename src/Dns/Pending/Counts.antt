-- ===== src/Dns/Pending/Counts.antt =====
-- Deliveries against queries over a history of one backend connection.
use slipgate.Prelude.{
  ℕ, ◌+◌, ◌≤◌, List, [], ◌∷◌, Option, arith, if◌then◌else◌, Bytes, length, get_u16, is_some,
}
use slipgate.Prelude.Table.{Table, nat_eq, store, length-delete-le, length-delete}
use slipgate.Dns.Pending.{PendingQuery, BackendConn, new_conn, forward, respond, clean}
use slipgate.Dns.Pending.Routing.{
  Event, query, answer, tick, step, run_from, pending_of, Forwarded, sent, full, failed,
  forward-Forwarded,
}
use slipgate.Dns.Pending.Delivery.{Responded, ignored, routed, respond-Responded}

-- the deliveries to clients, and the queries, of a history
unfoldable pub deliveries : List Event → ℕ
deliveries [] = 0
deliveries (query packet client now written ∷ past) = deliveries past
deliveries (answer buf ∷ past) =
    (if is_some (respond (run_from new_conn past) buf).1 then 1 else 0) + deliveries past
deliveries (tick now ∷ past) = deliveries past

unfoldable pub queries : List Event → ℕ
queries [] = 0
queries (query packet client now written ∷ past) = 1 + queries past
queries (answer buf ∷ past) = queries past
queries (tick now ∷ past) = queries past

length-clean : (now : ℕ) (m : Table ℕ PendingQuery) → length (clean now m) ≤ length m
unfolding clean
length-clean now [] = omega arith
length-clean now ((k, pq) ∷ m) = ground (arith, length-clean now m)

length-store-le :
    (k : ℕ) (pq : PendingQuery) (m : Table ℕ PendingQuery) → length (store k pq m) ≤ length m + 1
unfolding store
length-store-le k pq m = omega (arith, length-delete-le k m)

length-forward :
    (bc bc' : BackendConn) (pq : PendingQuery) (packet : Bytes) (out : Option Bytes)
    → Forwarded bc bc' pq packet out
    → length bc'.pending ≤ length bc.pending + 1
length-forward bc bc' pq packet out (sent id r e) = rw r.table (length-store-le id pq bc.pending)
length-forward bc bc' pq packet out (full t e) = rw t (omega arith)
length-forward bc bc' pq packet out (failed id f t e) =
    rw t (
      omega (arith, length-store-le id pq bc.pending, length-delete-le id (store id pq bc.pending)))

length-respond :
    (bc bc' : BackendConn) (buf : Bytes) (out : Option (Bytes × Bytes))
    → Responded bc bc' buf out
    → length bc'.pending + (if is_some out then 1 else 0) ≤ length bc.pending
length-respond bc bc' buf out (ignored t e) = rw (t, e) (omega arith)
length-respond bc bc' buf out (routed pq l t e) =
    rw (t, e) (omega (arith, length-delete (get_u16 buf 0) bc.pending (rw l)))

-- A backend connection never writes more packets to clients than clients have sent queries: with the
-- entries that are still pending, the deliveries are at most the queries.
pub deliveries-le-queries :
    (past : List Event) → length (run_from new_conn past).pending + deliveries past ≤ queries past
unfolding run_from step deliveries queries
deliveries-le-queries [] = omega arith
deliveries-le-queries (query packet client now written ∷ past) =
    let bc = run_from new_conn past in
    omega (
      arith,
      deliveries-le-queries past,
      length-forward bc (forward bc packet client now written).0 (pending_of packet client now)
          packet (forward bc packet client now written).1
          (forward-Forwarded bc packet client now written),
    )
deliveries-le-queries (answer buf ∷ past) =
    let bc = run_from new_conn past in
    omega (
      arith,
      deliveries-le-queries past,
      length-respond bc (respond bc buf).0 buf (respond bc buf).1 (respond-Responded bc buf),
    )
deliveries-le-queries (tick now ∷ past) =
    omega (arith, deliveries-le-queries past, length-clean now (run_from new_conn past).pending)
