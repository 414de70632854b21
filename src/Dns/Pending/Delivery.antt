-- ===== src/Dns/Pending/Delivery.antt =====
-- `handleQuery` and `readBackendResponses` of internal/dnsrouter/router.go over histories of queries,
-- responses and ticks.
use mathlib.Core.Path.{subst}
use slipgate.Prelude.{
  ℕ, ◌+◌, ◌≤◌, ◌<◌, ◌≡◌, ◌≢◌, ◌⊎◌, inl, inr, refl, sym, ap, ◌∙◌, true, false, List, [], ◌∷◌, Option,
  none, some, arith, ltb, ==_iff, Bytes, length, drop, get_u16, Bool-cases, Option-cases,
}
use slipgate.Prelude.Table.{Table, nat_eq, load, store, delete, load-store, load-delete}
use slipgate.Dns.Pending.{PendingQuery, BackendConn, new_conn, reserve, forward, put_txid, respond}
use slipgate.Dns.Pending.Reserve.{reserve_total}
use slipgate.Dns.Pending.Routing.{
  Event, query, answer, tick, step, run_from, pending_of, Forwarded, sent, full, failed,
  forward-Forwarded, load-clean, AllPending, AllPending-load, AllPending-delete, AllPending-clean,
  AllPending-forward,
}

-- The two outcomes of a datagram from the backend.
pub data Responded (bc bc' : BackendConn) (buf : Bytes) (out : Option (Bytes × Bytes))
    : Type 0 where
  ignored : bc'.pending ≡ bc.pending → out ≡ none → Responded bc bc' buf out
  routed :
      (pq : PendingQuery)
      → load (get_u16 buf 0) bc.pending ≡ some pq
      → bc'.pending ≡ delete (get_u16 buf 0) bc.pending
      → out ≡ some (pq.client_addr, put_txid pq.original_txid buf)
      → Responded bc bc' buf out

pub respond-Responded :
    (bc : BackendConn) (buf : Bytes) → Responded bc (respond bc buf).0 buf (respond bc buf).1
unfolding respond
respond-Responded bc buf = elim (Bool-cases (ltb (length buf) 2)) [
  | inl short ↦ rw short (ignored refl refl)
  | inr long ↦ elim (Option-cases (load (get_u16 buf 0) bc.pending)) [
    | inl unknown ↦ rw (long, unknown, respond) (ignored refl refl)
    | inr (pq, e) ↦ rw (long, e, respond) (routed pq e refl refl)
  ]
]

-- The query that became this entry stands in the history.
abbrev pub Asked : List Event → PendingQuery → Type 0
Asked [] pq = ⊥
Asked (query packet client now written ∷ past) pq =
    (pq ≡ pending_of packet client now) ⊎ Asked past pq
Asked (answer buf ∷ past) pq = Asked past pq
Asked (tick now ∷ past) pq = Asked past pq

AllPending-mono :
    (P Q : PendingQuery → Type 0) (m : Table ℕ PendingQuery)
    → ((pq : PendingQuery) → P pq → Q pq)
    → AllPending P m
    → AllPending Q m
AllPending-mono P Q [] f a = tt
AllPending-mono P Q ((k, pq) ∷ m) f a = (f pq a.0, AllPending-mono P Q m f a.1)

pending-Asked : (past : List Event) → AllPending (Asked past) (run_from new_conn past).pending
unfolding run_from step
pending-Asked [] = tt
pending-Asked (query packet client now written ∷ past) =
    let bc = run_from new_conn past in
    let earlier =
      AllPending-mono (Asked past) (Asked (query packet client now written ∷ past)) bc.pending
        (λ pq h. inr h) (pending-Asked past) in
    AllPending-forward (Asked (query packet client now written ∷ past)) bc
      (forward bc packet client now written).0 (pending_of packet client now) packet
      (forward bc packet client now written).1 (forward-Forwarded bc packet client now written)
      (inl refl) earlier
pending-Asked (answer buf ∷ past) = elim (respond-Responded (run_from new_conn past) buf) [
  | ignored t e ↦ rw t (pending-Asked past)
  | routed pq l t e ↦ rw t (
      AllPending-delete (Asked past) (get_u16 buf 0) (run_from new_conn past).pending
        (pending-Asked past))
]
pending-Asked (tick now ∷ past) =
    AllPending-clean (Asked past) now (run_from new_conn past).pending (pending-Asked past)

-- Whatever happened before, a packet that the router writes to a client answers a query which that client
-- sent: it carries the TXID of that query, and is otherwise the backend's packet.
pub respond-Asked :
    (past : List Event) (buf client packet : Bytes)
    → (respond (run_from new_conn past) buf).1 ≡ some (client, packet)
    → (pq : PendingQuery) × Asked past pq
      × (client ≡ pq.client_addr)
      × (packet ≡ put_txid pq.original_txid buf)
respond-Asked past buf client packet h = elim (respond-Responded (run_from new_conn past) buf) [
  | ignored t e ↦ cc
  | routed pq l t e ↦ (
    pq,
    AllPending-load (Asked past) (get_u16 buf 0) pq (run_from new_conn past).pending
        (pending-Asked past) l,
    ap (λ (o : Option (Bytes × Bytes)). addr o) (sym h ∙ e),
    ap (λ (o : Option (Bytes × Bytes)). body o) (sym h ∙ e),
  )
]
  where
    addr : Option (Bytes × Bytes) → Bytes
    addr none = []
    addr (some p) = p.0

    body : Option (Bytes × Bytes) → Bytes
    body none = []
    body (some p) = p.1

-- Nothing of these events answers the TXID `id` or is later than ten seconds after `asked`.
abbrev pub Quiet : ℕ → ℕ → List Event → Type 0
Quiet id asked [] = Unit
Quiet id asked (query packet client now written ∷ evs) = Quiet id asked evs
Quiet id asked (answer buf ∷ evs) = (get_u16 buf 0 ≢ id) × Quiet id asked evs
Quiet id asked (tick now ∷ evs) = (now ≤ asked + 10) × Quiet id asked evs

forward_keeps :
    (bc bc' : BackendConn) (new : PendingQuery) (packet : Bytes) (out : Option Bytes) (k : ℕ)
    (pq : PendingQuery)
    → Forwarded bc bc' new packet out
    → load k bc.pending ≡ some pq
    → load k bc'.pending ≡ some pq
forward_keeps bc bc' new packet out k pq (sent id r e) h =
    ground (arith, r.stored k, r.was_free, ==_iff id k)
forward_keeps bc bc' new packet out k pq (full t e) h = rw t h
forward_keeps bc bc' new packet out k pq (failed id f t e) h = rw t (
    ground (
      arith,
      load-delete id k (store id new bc.pending),
      load-store id k new bc.pending,
      ==_iff id k,
    ))

Quiet-keeps :
    (bc : BackendConn) (evs : List Event) (k : ℕ) (pq : PendingQuery)
    → load k bc.pending ≡ some pq
    → Quiet k pq.timestamp evs
    → load k (run_from bc evs).pending ≡ some pq
unfolding run_from step
Quiet-keeps bc [] k pq h q = h
Quiet-keeps bc (query packet client now written ∷ evs) k pq h q =
    let mid = run_from bc evs in
    forward_keeps mid (forward mid packet client now written).0 (pending_of packet client now)
      packet (forward mid packet client now written).1 k pq
      (forward-Forwarded mid packet client now written) (Quiet-keeps bc evs k pq h q)
Quiet-keeps bc (answer buf ∷ evs) k pq h q = elim (respond-Responded (run_from bc evs) buf) [
  | ignored t e ↦ rw t (Quiet-keeps bc evs k pq h q.1)
  | routed other l t e ↦ rw t (
      ground (
        arith,
        load-delete (get_u16 buf 0) k (run_from bc evs).pending,
        ==_iff (get_u16 buf 0) k,
        Quiet-keeps bc evs k pq h q.1,
        q.0,
      ))
]
Quiet-keeps bc (tick now ∷ evs) k pq h q =
    load-clean now k pq (run_from bc evs).pending (Quiet-keeps bc evs k pq h q.1) q.0

respond-load :
    (bc : BackendConn) (buf : Bytes) (pq : PendingQuery)
    → 2 ≤ length buf
    → load (get_u16 buf 0) bc.pending ≡ some pq
    → (respond bc buf).1 ≡ some (pq.client_addr, put_txid pq.original_txid buf)
unfolding respond
respond-load bc buf pq long h =
    let test : ltb (length buf) 2 ≡ false = ground arith in rw (test, h, respond)

get_u16-put_txid : (id : ℕ) (packet : Bytes) → id < 65536 → get_u16 (put_txid id packet) 0 ≡ id
get_u16-put_txid id packet h = omega arith

-- A query that went out: the packet differs from the client's in the TXID alone, and the query waits under that
-- TXID.
pub record IsSent (bc : BackendConn) (packet client : Bytes) (now : ℕ) (wire : Bytes) : Type 0 where
  pub out : (forward bc packet client now true).1 ≡ some wire
  pub unchanged : drop 2 wire ≡ drop 2 packet
  pub waits :
      load (get_u16 wire 0) (forward bc packet client now true).0.pending
      ≡ some (pending_of packet client now)
  pub was_free : load (get_u16 wire 0) bc.pending ≡ none

-- While some TXID is free, a query whose write succeeds goes out.
pub forward_total :
    (bc : BackendConn) (packet client : Bytes) (now free : ℕ)
    → free < 65536
    → load free bc.pending ≡ none
    → (wire : Bytes) × IsSent bc packet client now wire
unfolding forward
forward_total bc packet client now free lt none_there =
    let pq = pending_of packet client now in
    let (id, e, r) = reserve_total bc pq free lt none_there in
    let is_id = get_u16-put_txid id packet r.in_range in
    let there : load id (reserve 65536 bc pq).0.pending ≡ some pq =
      ground (arith, r.stored id, ==_iff id id) in
    (
      put_txid id packet,
      record {
        out = rw (e, forward);
        unchanged = refl;
        waits =
            ap (λ (k : ℕ). load k (forward bc packet client now true).0.pending) is_id
            ∙ rw (e, forward) there;
        was_free = ap (λ (k : ℕ). load k bc.pending) is_id ∙ r.was_free;
      },
    )

-- A query that was written to the backend is answered to its client, with the client's own TXID, when the
-- response with its server-side TXID comes, after any other events: queries of other clients, even with the same
-- TXID, responses with other TXIDs, and ticks up to ten seconds after the query.
pub forward-respond :
    (bc : BackendConn) (packet client wire : Bytes) (now : ℕ) (evs : List Event) (buf : Bytes)
    → (forward bc packet client now true).1 ≡ some wire
    → 2 ≤ length buf
    → get_u16 buf 0 ≡ get_u16 wire 0
    → Quiet (get_u16 wire 0) now evs
    → (drop 2 wire ≡ drop 2 packet)
      × ((respond (run_from (forward bc packet client now true).0 evs) buf).1
          ≡ some (client, put_txid (get_u16 packet 0) buf))
forward-respond bc packet client wire now evs buf out long same q =
    elim (forward-Forwarded bc packet client now true) [
      | sent id r e ↦
          let pq = pending_of packet client now in
          let bc' = (forward bc packet client now true).0 in
          let is_wire : wire ≡ put_txid id packet = cc in
          let is_id : get_u16 wire 0 ≡ id =
            ap (λ (w : Bytes). get_u16 w 0) is_wire ∙ get_u16-put_txid id packet r.in_range in
          let there : load id bc'.pending ≡ some pq = ground (arith, r.stored id, ==_iff id id) in
          let kept = Quiet-keeps bc' evs id pq there (subst (λ (k : ℕ). Quiet k now evs) is_id q) in
          let asked : load (get_u16 buf 0) (run_from bc' evs).pending ≡ some pq =
            ap (λ (k : ℕ). load k (run_from bc' evs).pending) (same ∙ is_id) ∙ kept in
          (ap (drop 2) is_wire, respond-load (run_from bc' evs) buf pq long asked)
      | full t e ↦ cc
      | failed id f t e ↦ cc
    ]
