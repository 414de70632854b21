-- ===== src/Dns/Verify.antt =====
-- `handleVerify` and `findVerifyRoute` of internal/dnsrouter/verify.go. HMAC-SHA256, the base32
-- decoder and the random draws are parameters; a panic of the handler is an outcome.
pub mod Answers
pub mod Authentic
pub mod Padding
pub mod Question
use slipgate.Prelude.{
  ℕ, zero, suc, ◌+◌, ◌-◌, ◌/◌, ◌<◌, ◌≡◌, Bool, true, false, ◌&&◌, ◌||◌, not, List, [], ◌∷◌, ◌++◌,
  Option, none, some, ltb, leb, ◌==◌, if◌then◌else◌, Bytes, bytes_eq, to_lower, join, length, take,
  drop, slice, get_or, get_u16,
}
use slipgate.Dns.Response.{build_response}
use slipgate.Dns.Edns.{parse_edns0}

pub record VerifyRoute : Type 0 where
  pub domain_labels : List Bytes
  pub pubkey : Bytes
  pub mtu : ℕ

-- `hmac key message` is the 32 bytes of HMAC-SHA256; `draw n` is rand.IntN(n); `padding n` is what
-- `fillFastRandom` leaves in a buffer of n bytes.
pub record Env : Type 0 where
  pub hmac : Bytes → Bytes → Bytes
  pub base32_decode : Bytes → Option Bytes
  pub draw : ℕ → ℕ
  pub padding : ℕ → Bytes
  pub length-hmac : (key message : Bytes) → length (hmac key message) ≡ 32
  pub draw_lt : (n : ℕ) → 0 < n → draw n < n
  pub length-padding : (n : ℕ) → length (padding n) ≡ n

-- The loop over the question name, which gives the labels in lower case and the offset behind them.
unfoldable pub read_question : ℕ → Bytes → ℕ → List Bytes → Option (List Bytes × ℕ)
read_question zero packet offset labels = none
read_question (suc fuel) packet offset labels =
    let len = get_or packet offset 0 in
    let rest =
      read_question fuel packet (offset + 1 + len)
        (labels ++ (to_lower (slice packet (offset + 1) len) ∷ [])) in
    if leb (length packet) offset
    then some (labels, offset)
    else if len == 0
    then some (labels, offset + 1)
    else if leb 0xC0 len
    then none
    else if ltb (length packet) (offset + 1 + len)
    then none
    else rest

-- The checks up to `qEnd := offset + 4`: a query with one TXT question.
unfoldable pub txt_question : Bytes → Option (List Bytes × ℕ)
txt_question packet =
    if ltb (length packet) 12
    then none
    else if leb 0x80 (get_or packet 2 0)
    then none
    else if not (get_u16 packet 4 == 1)
    then none
    else elim (read_question (suc (length packet)) packet 12 []) [
      | none ↦ none
      | some (labels, offset) ↦
          if ltb (length packet) (offset + 4)
          then none
          else if not (get_u16 packet offset == 16)
          then none
          else some (labels, offset + 4)
    ]

-- for j, want := range vr.domainLabels { if labels[off+j] != want { … } }
unfoldable pub labels_match : List Bytes → List Bytes → Bool
labels_match [] labels = true
labels_match (want ∷ wants) [] = false
labels_match (want ∷ wants) (label ∷ labels) = bytes_eq label want && labels_match wants labels

-- the body of the loop of `findVerifyRoute`
unfoldable pub route_fits : List Bytes → VerifyRoute → Bool
route_fits labels vr =
    leb (1 + length vr.domain_labels) (length labels)
    && labels_match vr.domain_labels (drop (length labels - length vr.domain_labels) labels)

unfoldable pub find_verify_route : List VerifyRoute → List Bytes → Option VerifyRoute
find_verify_route [] labels = none
find_verify_route (vr ∷ routes) labels =
    if route_fits labels vr then some vr else find_verify_route routes labels

-- the mtu that the response is padded to
unfoldable pub choose_mtu : VerifyRoute → Bytes → Bytes → ℕ → ℕ
choose_mtu vr nonce packet q_end =
    let desired = get_u16 nonce 14 in
    let advertised = parse_edns0 packet q_end in
    let base = if vr.mtu == 0 then 1232 else vr.mtu in
    if leb 200 desired && leb desired 4096
    then desired
    else if ltb 0 advertised && not (advertised == 1232)
    then advertised
    else base

-- `targetTotal`, from the draw
unfoldable pub target_total : ℕ → ℕ → ℕ
target_total mtu drawn = if ltb (mtu - drawn) 200 then 200 else mtu - drawn

-- `targetData`. Where the source's integers are negative, the subtractions of ℕ give 0, and both are
-- below 32.
unfoldable pub target_data : ℕ → ℕ → ℕ
target_data total q_end =
    let payload = total - (q_end + 14 + 11) in
    let wanted = payload - payload / 256 - 1 in if ltb wanted 32 then 32 else wanted

pub data Verdict : Type 0 where
  not_probe : Verdict
  reply : Bytes → Verdict
  panic : Verdict

module _ (env : Env) where
  -- The nonce of a probe whose proof is right.
  unfoldable pub check_proof : VerifyRoute → Bytes → Option Bytes
  check_proof vr decoded =
      if ltb (length decoded) 32
      then none
      else if not (bytes_eq (slice decoded 16 16) (take 16 (env.hmac vr.pubkey (take 16 decoded))))
      then none
      else some (take 16 decoded)

  unfoldable pub probe_nonce : VerifyRoute → List Bytes → Option Bytes
  unfolding check_proof
  probe_nonce vr labels =
      if leb (length labels) (length vr.domain_labels)
      then none
      else elim (env.base32_decode
          (join (take (length labels - length vr.domain_labels) labels) [])) [
            | none ↦ none
            | some decoded ↦ check_proof vr decoded
          ]

  -- The response. `rand.IntN(0)` panics, and so does a slice past the 4096 bytes of the pooled buffer.
  unfoldable pub reply_to : VerifyRoute → Bytes → Bytes → ℕ → Verdict
  reply_to vr nonce packet q_end =
      let mtu = choose_mtu vr nonce packet q_end in
      let size = target_data (target_total mtu (env.draw (mtu / 4))) q_end in
      if mtu / 4 == 0
      then panic
      else if ltb 4096 size
      then panic
      else reply (
          build_response packet q_end
            (env.hmac vr.pubkey (nonce ++ (1 ∷ [])) ++ env.padding (size - 32)) 4096)

  unfoldable pub handle_verify : List VerifyRoute → Bytes → Verdict
  handle_verify routes packet = elim (txt_question packet) [
    | none ↦ not_probe
    | some (labels, q_end) ↦ elim (find_verify_route routes labels) [
      | none ↦ not_probe
      | some vr ↦ elim (probe_nonce vr labels) [
        | none ↦ not_probe
        | some nonce ↦ reply_to vr nonce packet q_end
      ]
    ]
  ]
