-- ===== src/Dns/Pending.antt =====
-- The queries in flight to one backend: `backendConn` of internal/dnsrouter/router.go.
-- `LoadOrStore`, `LoadAndDelete` and `Delete` of a `sync.Map`, and `Add` of the counter, are atomic.
pub mod Reserve
pub mod Routing
pub mod Delivery
pub mod Counts
use slipgate.Prelude.{
  ℕ, zero, suc, ◌+◌, ◌-◌, ◌%◌, ◌^◌, Bool, List, [], ◌∷◌, ◌++◌, Option, none, some, ltb,
  if◌then◌else◌, Bytes, length, drop, get_u16, u16_bytes, is_some,
}
use slipgate.Prelude.Table.{Table, nat_eq, load, store, delete}

pub record PendingQuery : Type 0 where
  pub client_addr : Bytes
  pub original_txid : ℕ
  pub timestamp : ℕ

pub record BackendConn : Type 0 where
  pub pending : Table ℕ PendingQuery
  pub next_txid : ℕ

abbrev pub new_conn : BackendConn
new_conn = record { pending = []; next_txid = 0 }

-- bc.nextTxID.Add(1), on a uint32
abbrev pub count_up : ℕ → ℕ
count_up n = (n + 1) % 2 ^ 32

-- uint16(…)
abbrev pub candidate : ℕ → ℕ
candidate n = count_up n % 65536

-- `for i := 0; i < 65536; i++`, on the rounds left. `none` is `stored == false`.
unfoldable pub reserve : ℕ → BackendConn → PendingQuery → BackendConn × Option ℕ
reserve zero bc pq = (bc, none)
reserve (suc n) bc pq =
    let rest = reserve n (record bc { next_txid = count_up bc.next_txid }) pq in
    if is_some (load (candidate bc.next_txid) bc.pending) then rest else (
      record {
        pending = store (candidate bc.next_txid) pq bc.pending;
        next_txid = count_up bc.next_txid;
      },
      some (candidate bc.next_txid),
    )

-- binary.BigEndian.PutUint16(packet[:2], v)
abbrev pub put_txid : ℕ → Bytes → Bytes
put_txid v packet = u16_bytes v ++ drop 2 packet

-- The tail of `handleQuery`: reserve a TXID, rewrite the packet, write it; a failed write gives the
-- TXID back. The second part is the packet that reaches the backend.
unfoldable pub forward : BackendConn → Bytes → Bytes → ℕ → Bool → BackendConn × Option Bytes
forward bc packet client now written =
    let pq : PendingQuery = record {
      client_addr = client;
      original_txid = get_u16 packet 0;
      timestamp = now;
    } in
    let (bc', id) = reserve 65536 bc pq in
    elim id [
      | none ↦ (bc', none)
      | some txid ↦
          if written
          then (bc', some (put_txid txid packet))
          else (record bc' { pending = delete txid bc'.pending }, none)
    ]

-- One datagram of `readBackendResponses`: what is written to which client.
unfoldable pub respond : BackendConn → Bytes → BackendConn × Option (Bytes × Bytes)
respond bc buf = if ltb (length buf) 2 then (bc, none) else elim (load (get_u16 buf 0) bc.pending) [
  | none ↦ (bc, none)
  | some pq ↦ (
    record bc { pending = delete (get_u16 buf 0) bc.pending },
    some (pq.client_addr, put_txid pq.original_txid buf),
  )
]

-- One tick of `cleanPending`: `now.Sub(pq.timestamp) > 10*time.Second`, in seconds.
unfoldable pub clean : ℕ → Table ℕ PendingQuery → Table ℕ PendingQuery
clean now [] = []
clean now ((k, pq) ∷ m) =
    let rest = clean now m in if ltb 10 (now - pq.timestamp) then rest else (k, pq) ∷ rest
