-- ===== src/Dns/Verify/Padding.antt =====
-- The size of a response of `handleVerify` in internal/dnsrouter/verify.go, and its panics.
use slipgate.Prelude.{
  ℕ, ◌+◌, ◌-◌, ◌*◌, ◌/◌, ◌≤◌, ◌<◌, ◌≡◌, ◌≢◌, ◌⊎◌, sym, ap, ◌∙◌, [], ◌∷◌, ◌++◌, arith, Bytes, length,
  get_u16, length-append,
}
use slipgate.Dns.Edns.{parse_edns0}
use slipgate.Dns.Response.{build_response}
use slipgate.Dns.Response.Size.{length-build_response}
use slipgate.Dns.Verify.{
  VerifyRoute, Env, reply, panic, choose_mtu, target_total, target_data, reply_to,
}

-- With a size from 200 to 4096 in the nonce the handler does not panic, whatever the packet, the route and
-- the random draws.
pub reply_to-ne-panic :
    (env : Env) (vr : VerifyRoute) (nonce packet : Bytes) (q_end : ℕ)
    → 200 ≤ get_u16 nonce 14
    → get_u16 nonce 14 ≤ 4096
    → reply_to env vr nonce packet q_end ≢ panic
unfolding reply_to choose_mtu target_total target_data
reply_to-ne-panic env vr nonce packet q_end low high = ground arith

-- With no such size in the nonce, an EDNS0 payload size of 1 to 3, or of at least 5600 and twice the end of the
-- question, gives the panic, whatever the route and the draws.
pub reply_to_panic :
    (env : Env) (vr : VerifyRoute) (nonce packet : Bytes) (q_end : ℕ)
    → (get_u16 nonce 14 < 200) ⊎ (4096 < get_u16 nonce 14)
    → ((0 < parse_edns0 packet q_end) × (parse_edns0 packet q_end < 4))
      ⊎ (5600 + 2 * q_end ≤ parse_edns0 packet q_end)
    → reply_to env vr nonce packet q_end ≡ panic
unfolding reply_to choose_mtu target_total target_data
reply_to_panic env vr nonce packet q_end nonce_size size =
    ground (arith, env.draw_lt (parse_edns0 packet q_end / 4))

-- A response stays within the size drawn for it, unless that leaves no room for the 32 bytes of the proof.
target_data_room :
    (total q_end : ℕ)
    → 32 < target_data total q_end
    → target_data total q_end + (target_data total q_end + 254) / 255 + q_end + 23 ≤ total
unfolding target_data
target_data_room total q_end h = ground arith

-- the size of the payload of a response
abbrev pub payload_size : Env → VerifyRoute → Bytes → Bytes → ℕ → ℕ
payload_size env vr nonce packet q_end =
    let mtu = choose_mtu vr nonce packet q_end in
    target_data (target_total mtu (env.draw (mtu / 4))) q_end

abbrev pub payload_of : Env → VerifyRoute → Bytes → Bytes → ℕ → Bytes
payload_of env vr nonce packet q_end =
    env.hmac vr.pubkey (nonce ++ (1 ∷ []))
    ++ env.padding (payload_size env vr nonce packet q_end - 32)

pub reply_to-eq-reply :
    (env : Env) (vr : VerifyRoute) (nonce packet : Bytes) (q_end : ℕ) (response : Bytes)
    → reply_to env vr nonce packet q_end ≡ reply response
    → (build_response packet q_end (payload_of env vr nonce packet q_end) 4096 ≡ response)
      × (payload_size env vr nonce packet q_end ≤ 4096)
unfolding reply_to
reply_to-eq-reply env vr nonce packet q_end response h = ground arith

pub reply_to-sized :
    (env : Env) (vr : VerifyRoute) (nonce packet : Bytes) (q_end : ℕ)
    → 200 ≤ get_u16 nonce 14
    → get_u16 nonce 14 ≤ 4096
    → reply_to env vr nonce packet q_end
      ≡ reply (build_response packet q_end (payload_of env vr nonce packet q_end) 4096)
unfolding reply_to
reply_to-sized env vr nonce packet q_end low high =
    ground (arith, reply_to-ne-panic env vr nonce packet q_end low high)

target_data-32 : (total q_end : ℕ) → 32 ≤ target_data total q_end
unfolding target_data
target_data-32 total q_end = ground arith

length-payload :
    (env : Env) (vr : VerifyRoute) (nonce packet : Bytes) (q_end : ℕ)
    → length (payload_of env vr nonce packet q_end) ≡ payload_size env vr nonce packet q_end
length-payload env vr nonce packet q_end =
    let mtu = choose_mtu vr nonce packet q_end in
    omega (
      arith,
      length-append (env.hmac vr.pubkey (nonce ++ (1 ∷ [])))
          (env.padding (payload_size env vr nonce packet q_end - 32)),
      env.length-hmac vr.pubkey (nonce ++ (1 ∷ [])),
      env.length-padding (payload_size env vr nonce packet q_end - 32),
      target_data-32 (target_total mtu (env.draw (mtu / 4))) q_end,
    )

target_total-le : (mtu drawn : ℕ) → (target_total mtu drawn ≤ mtu) ⊎ (target_total mtu drawn ≡ 200)
unfolding target_total
target_total-le mtu drawn = ground arith

-- A response is no longer than the size that was chosen for it, or than 200 bytes where less was chosen; only
-- where the question leaves no room for the 32-byte proof it has exactly the size that the proof needs.
pub length-reply_to :
    (env : Env) (vr : VerifyRoute) (nonce packet : Bytes) (q_end : ℕ) (response : Bytes)
    → reply_to env vr nonce packet q_end ≡ reply response
    → 12 ≤ q_end
    → q_end ≤ length packet
    → (length response ≤ choose_mtu vr nonce packet q_end)
      ⊎ ((length response ≤ 200) ⊎ (length response ≡ q_end + 56))
length-reply_to env vr nonce packet q_end response h low high =
    let mtu = choose_mtu vr nonce packet q_end in
    let total = target_total mtu (env.draw (mtu / 4)) in
    let is_response = (reply_to-eq-reply env vr nonce packet q_end response h).0 in
    let size =
      length-build_response packet q_end (payload_of env vr nonce packet q_end) 4096 low high in
    let payload = length-payload env vr nonce packet q_end in
    let measured : length response
        ≡ q_end + 23 + target_data total q_end + (target_data total q_end + 254) / 255 =
      ap length (sym is_response)
      ∙ size
      ∙ ap (λ (n : ℕ). q_end + 23 + n + (n + 254) / 255) payload in
    ground (
      arith,
      measured,
      target_data-32 total q_end,
      target_data_room total q_end,
      target_total-le mtu (env.draw (mtu / 4)),
    )
