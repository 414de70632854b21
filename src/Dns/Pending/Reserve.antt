-- ===== src/Dns/Pending/Reserve.antt =====
-- The allocation of server-side TXIDs.
use slipgate.Prelude.{
  ℕ, zero, suc, ◌+◌, ◌-◌, ◌%◌, ◌<◌, ◌≡◌, inl, inr, refl, sym, ap, ◌∙◌, true, Option, none, some,
  arith, ◌==◌, if◌then◌else◌, is_some, Bool-cases, Option-cases,
}
use slipgate.Prelude.Table.{nat_eq, load, store, load-store}
use slipgate.Dns.Pending.{PendingQuery, BackendConn, count_up, candidate, reserve}

-- A reservation takes a TXID that was free, below 65536, stores the query under it and keeps every other entry.
pub record IsReserved (bc bc' : BackendConn) (pq : PendingQuery) (id : ℕ) : Type 0 where
  pub in_range : id < 65536
  pub was_free : load id bc.pending ≡ none
  pub table : bc'.pending ≡ store id pq bc.pending
  pub stored : (k : ℕ) → load k bc'.pending ≡ (if id == k then some pq else load k bc.pending)

pub reserve-IsReserved :
    (n : ℕ) (bc : BackendConn) (pq : PendingQuery) (id : ℕ)
    → (reserve n bc pq).1 ≡ some id
    → IsReserved bc (reserve n bc pq).0 pq id
unfolding reserve
reserve-IsReserved zero bc pq id h = cc
reserve-IsReserved (suc n) bc pq id h =
    elim (Bool-cases (is_some (load (candidate bc.next_txid) bc.pending))) [
      | inl busy ↦
          let r =
            reserve-IsReserved n (record bc { next_txid = count_up bc.next_txid }) pq id
              (rw busy at h) in
          rw busy (record {
            in_range = r.in_range;
            was_free = r.was_free;
            table = r.table;
            stored = r.stored;
          })
      | inr free ↦
          let this : candidate bc.next_txid ≡ id = ground arith in
          rw free (record {
            in_range = omega arith;
            was_free = ground arith;
            table = ap (λ (j : ℕ). store j pq bc.pending) this;
            stored = λ k.
                load-store (candidate bc.next_txid) k pq bc.pending
                ∙ ap (λ (j : ℕ). if j == k then some pq else load k bc.pending) this;
          })
    ]

-- Without a free candidate among those tried, nothing is stored.
pub reserve_full :
    (n : ℕ) (bc : BackendConn) (pq : PendingQuery)
    → (reserve n bc pq).1 ≡ none
    → (reserve n bc pq).0.pending ≡ bc.pending
unfolding reserve
reserve_full zero bc pq h = refl
reserve_full (suc n) bc pq h =
    ground (arith, reserve_full n (record bc { next_txid = count_up bc.next_txid }) pq)

-- The `i`-th candidate from a counter value.
reserve-tries :
    (n : ℕ) (bc : BackendConn) (pq : PendingQuery) (i : ℕ)
    → (reserve n bc pq).1 ≡ none
    → i < n
    → is_some (load ((bc.next_txid + (i + 1)) % 65536) bc.pending) ≡ true
unfolding reserve
reserve-tries zero bc pq i h lt = absurd (omega arith)
reserve-tries (suc n) bc pq zero h lt =
    let same : candidate bc.next_txid ≡ (bc.next_txid + (0 + 1)) % 65536 = omega arith in
    let busy : is_some (load (candidate bc.next_txid) bc.pending) ≡ true = ground arith in
    ap (λ (k : ℕ). is_some (load k bc.pending)) (sym same) ∙ busy
reserve-tries (suc n) bc pq (suc i) h lt =
    let next = count_up bc.next_txid in
    let same : (next + (i + 1)) % 65536 ≡ (bc.next_txid + (suc i + 1)) % 65536 = omega arith in
    let later : (reserve n (record bc { next_txid = count_up bc.next_txid }) pq).1 ≡ none =
      ground arith in
    ap (λ (k : ℕ). is_some (load k bc.pending)) (sym same)
    ∙ reserve-tries n (record bc { next_txid = count_up bc.next_txid }) pq i later (omega arith)

-- The 65536 candidates are all the TXIDs there are.
all_busy :
    (bc : BackendConn) (pq : PendingQuery) (k : ℕ)
    → (reserve 65536 bc pq).1 ≡ none
    → k < 65536
    → is_some (load k bc.pending) ≡ true
all_busy bc pq k h lt =
    let i = (k + 65536 - (bc.next_txid + 1) % 65536) % 65536 in
    let same : (bc.next_txid + (i + 1)) % 65536 ≡ k = omega arith in
    ap (λ (j : ℕ). is_some (load j bc.pending)) (sym same)
    ∙ reserve-tries 65536 bc pq i h (omega arith)

-- While some TXID below 65536 is free, the allocation of `handleQuery` succeeds, wherever the counter stands: the
-- TXID was free, the query is stored under it, and every other entry is as it was.
pub reserve_total :
    (bc : BackendConn) (pq : PendingQuery) (free : ℕ)
    → free < 65536
    → load free bc.pending ≡ none
    → (id : ℕ) × ((reserve 65536 bc pq).1 ≡ some id) × IsReserved bc (reserve 65536 bc pq).0 pq id
reserve_total bc pq free lt none_there = elim (Option-cases (reserve 65536 bc pq).1) [
  | inr (id, e) ↦ (id, e, reserve-IsReserved 65536 bc pq id e)
  | inl full ↦ absurd (clash (load free bc.pending) none_there (all_busy bc pq free full lt))
]
  where
    clash : (o : Option PendingQuery) → o ≡ none → is_some o ≡ true → ⊥
    clash none e h = cc
    clash (some q) e h = cc
