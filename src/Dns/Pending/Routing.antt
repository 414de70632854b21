-- ===== src/Dns/Pending/Routing.antt =====
-- The events of one backend connection, what each leaves in the table of pending queries, and
-- predicates over all its entries.
use mathlib.Core.Path.{subst}
use slipgate.Prelude.{
  ℕ, ◌+◌, ◌-◌, ◌≤◌, ◌≡◌, inl, inr, refl, ap, Bool, true, false, List, [], ◌∷◌, Option, none, some,
  arith, ltb, ◌==◌, Bytes, get_u16, Bool-cases, Option-cases, All,
}
use slipgate.Prelude.Table.{Table, nat_eq, load, store, delete}
use slipgate.Dns.Pending.{PendingQuery, BackendConn, reserve, forward, put_txid, respond, clean}
use slipgate.Dns.Pending.Reserve.{IsReserved, reserve-IsReserved, reserve_full}

-- What the goroutines of one backend do, each as one step.
pub data Event : Type 0 where
  query : Bytes → Bytes → ℕ → Bool → Event
  answer : Bytes → Event
  tick : ℕ → Event

unfoldable pub step : BackendConn → Event → BackendConn
step bc (query packet client now written) = (forward bc packet client now written).0
step bc (answer buf) = (respond bc buf).0
step bc (tick now) = record bc { pending = clean now bc.pending }

-- The state after a history of events, the newest first.
unfoldable pub run_from : BackendConn → List Event → BackendConn
run_from bc [] = bc
run_from bc (ev ∷ past) = step (run_from bc past) ev

abbrev pub pending_of : Bytes → Bytes → ℕ → PendingQuery
pending_of packet client now = record {
  client_addr = client;
  original_txid = get_u16 packet 0;
  timestamp = now;
}

-- What `forward` leaves in the table, by its three outcomes.
pub data Forwarded (bc bc' : BackendConn) (pq : PendingQuery) (packet : Bytes) (out : Option Bytes)
    : Type 0 where
  sent :
      (id : ℕ)
      → IsReserved bc bc' pq id
      → out ≡ some (put_txid id packet)
      → Forwarded bc bc' pq packet out
  full : bc'.pending ≡ bc.pending → out ≡ none → Forwarded bc bc' pq packet out
  failed :
      (id : ℕ)
      → load id bc.pending ≡ none
      → bc'.pending ≡ delete id (store id pq bc.pending)
      → out ≡ none
      → Forwarded bc bc' pq packet out

pub forward-Forwarded :
    (bc : BackendConn) (packet client : Bytes) (now : ℕ) (written : Bool)
    → Forwarded bc
        (forward bc packet client now written).0
        (pending_of packet client now)
        packet
        (forward bc packet client now written).1
unfolding forward
forward-Forwarded bc packet client now written =
    let pq = pending_of packet client now in
    elim (Option-cases (reserve 65536 bc pq).1) [
      | inl none_free ↦ rw (none_free, forward) (full (reserve_full 65536 bc pq none_free) refl)
      | inr (id, e) ↦
          by_write written (reserve 65536 bc pq).0 id e (reserve-IsReserved 65536 bc pq id e)
    ]
  where
    by_write :
        (w : Bool) (bc' : BackendConn) (id : ℕ)
        → (reserve 65536 bc (pending_of packet client now)).1 ≡ some id
        → IsReserved bc
            (reserve 65536 bc (pending_of packet client now)).0
            (pending_of packet client now)
            id
        → Forwarded bc
            (forward bc packet client now w).0
            (pending_of packet client now)
            packet
            (forward bc packet client now w).1
    by_write true bc' id e r = rw (e, forward) (sent id r refl)
    by_write false bc' id e r = rw (e, forward) (failed id r.was_free (ap (delete id) r.table) refl)

pub load-clean :
    (now k : ℕ) (pq : PendingQuery) (m : Table ℕ PendingQuery)
    → load k m ≡ some pq
    → now ≤ pq.timestamp + 10
    → load k (clean now m) ≡ some pq
unfolding load clean
load-clean now k pq [] h fresh = cc
load-clean now k pq ((j, q) ∷ m) h fresh = elim (Bool-cases (j == k)) [
  | inl same ↦
      let this : q ≡ pq = ground arith in
      let young : ltb 10 (now - q.timestamp) ≡ false = rw this (ground arith) in
      rw (young, same) (ap some this)
  | inr other ↦ ground (arith, load-clean now k pq m)
]

-- Every entry of the table.
abbrev pub AllPending : (PendingQuery → Type 0) → Table ℕ PendingQuery → Type 0
AllPending P = All (λ (e : ℕ × PendingQuery). P e.1)

module _ (P : PendingQuery → Type 0) where
  pub AllPending-load :
      (k : ℕ) (pq : PendingQuery) (m : Table ℕ PendingQuery)
      → AllPending P m
      → load k m ≡ some pq
      → P pq
  unfolding load
  AllPending-load k pq [] a h = cc
  AllPending-load k pq ((j, q) ∷ m) a h = elim (Bool-cases (j == k)) [
    | inl same ↦ let this : q ≡ pq = ground arith in subst P this a.0
    | inr other ↦ AllPending-load k pq m a.1 (rw other at h)
  ]

  pub AllPending-delete :
      (k : ℕ) (m : Table ℕ PendingQuery) → AllPending P m → AllPending P (delete k m)
  unfolding delete
  AllPending-delete k [] a = tt
  AllPending-delete k ((j, q) ∷ m) a = elim (Bool-cases (j == k)) [
    | inl same ↦ rw same (AllPending-delete k m a.1)
    | inr other ↦ rw other (a.0, AllPending-delete k m a.1)
  ]

  pub AllPending-store :
      (k : ℕ) (pq : PendingQuery) (m : Table ℕ PendingQuery)
      → P pq
      → AllPending P m
      → AllPending P (store k pq m)
  unfolding store
  AllPending-store k pq m p a = (p, AllPending-delete k m a)

  pub AllPending-clean :
      (now : ℕ) (m : Table ℕ PendingQuery) → AllPending P m → AllPending P (clean now m)
  unfolding clean
  AllPending-clean now [] a = tt
  AllPending-clean now ((j, q) ∷ m) a = elim (Bool-cases (ltb 10 (now - q.timestamp))) [
    | inl old ↦ rw old (AllPending-clean now m a.1)
    | inr young ↦ rw young (a.0, AllPending-clean now m a.1)
  ]

  pub AllPending-forward :
      (bc bc' : BackendConn) (pq : PendingQuery) (packet : Bytes) (out : Option Bytes)
      → Forwarded bc bc' pq packet out
      → P pq
      → AllPending P bc.pending
      → AllPending P bc'.pending
  AllPending-forward bc bc' pq packet out (sent id r e) p a =
      rw r.table (AllPending-store id pq bc.pending p a)
  AllPending-forward bc bc' pq packet out (full t e) p a = rw t a
  AllPending-forward bc bc' pq packet out (failed id f t e) p a =
      rw t (AllPending-delete id (store id pq bc.pending) (AllPending-store id pq bc.pending p a))
