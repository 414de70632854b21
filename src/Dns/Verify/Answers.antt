-- ===== src/Dns/Verify/Answers.antt =====
-- The probes that `handleVerify` of internal/dnsrouter/verify.go answers, and those at which it panics.
use slipgate.Prelude.{
  ℕ, suc, ◌+◌, ◌-◌, ◌*◌, ◌≤◌, ◌<◌, ◌≡◌, ◌⊎◌, inl, inr, refl, sym, ap, ◌∙◌, true, false, List, [],
  ◌∷◌, ◌++◌, some, arith, ltb, leb, Bytes, bytes_eq, bytes_eq_refl, join, length, take, drop,
  get_u16, All, slice, Bool-cases, length-take, length-append, take-length-append,
  drop-length-append,
}
use slipgate.Dns.Edns.{parse_edns0}
use slipgate.Dns.Response.{build_response}
use slipgate.Dns.Verify.{
  VerifyRoute, Env, reply, panic, labels_match, route_fits, find_verify_route, check_proof,
  probe_nonce, reply_to, handle_verify,
}
use slipgate.Dns.Verify.Padding.{payload_of, reply_to-sized, reply_to_panic}
use slipgate.Dns.Verify.Question.{TxtQuery, TxtQuery-txt_question}
use slipgate.Dns.Verify.Authentic.{EndsIn, IsProof, route_fits-EndsIn}

check_proof_complete :
    (env : Env) (vr : VerifyRoute) (text nonce : Bytes) (p : IsProof env vr text nonce)
    → check_proof env vr (nonce ++ (take 16 (env.hmac vr.pubkey nonce) ++ p.rest)) ≡ some nonce
unfolding check_proof
check_proof_complete env vr text nonce p =
    let made = take 16 (env.hmac vr.pubkey nonce) in
    let decoded = nonce ++ (made ++ p.rest) in
    let length-made : length made ≡ 16 =
      omega (arith, length-take 16 (env.hmac vr.pubkey nonce), env.length-hmac vr.pubkey nonce) in
    let long : ltb (length decoded) 32 ≡ false =
      ground (arith, length-append nonce (made ++ p.rest), length-append made p.rest) in
    let is_nonce : take 16 decoded ≡ nonce =
      ap (λ (n : ℕ). take n decoded) (sym p.length-nonce)
      ∙ take-length-append nonce (made ++ p.rest) in
    let behind : drop 16 decoded ≡ made ++ p.rest =
      ap (λ (n : ℕ). drop n decoded) (sym p.length-nonce)
      ∙ drop-length-append nonce (made ++ p.rest) in
    let is_made : slice decoded 16 16 ≡ made =
      ap (take 16) behind
      ∙ ap (λ (n : ℕ). take n (made ++ p.rest)) (sym length-made)
      ∙ take-length-append made p.rest in
    let right : bytes_eq (slice decoded 16 16) (take 16 (env.hmac vr.pubkey (take 16 decoded)))
        ≡ true =
      rw (is_made, is_nonce) (bytes_eq_refl made) in
    rw (long, right) (ap some is_nonce)

probe_nonce_complete :
    (env : Env) (vr : VerifyRoute) (labels front : List Bytes) (nonce : Bytes)
    → EndsIn vr labels front
    → IsProof env vr (join front []) nonce
    → probe_nonce env vr labels ≡ some nonce
unfolding probe_nonce
probe_nonce_complete env vr labels [] nonce ends proof = absurd (ends.nonempty refl)
probe_nonce_complete env vr labels (l ∷ ls) nonce ends proof =
    let size : length labels ≡ suc (length ls) + length vr.domain_labels =
      ap length ends.splits ∙ length-append (l ∷ ls) vr.domain_labels in
    let long : leb (length labels) (length vr.domain_labels) ≡ false = ground arith in
    let n : length labels - length vr.domain_labels ≡ length (l ∷ ls) = omega arith in
    let is_front : take (length labels - length vr.domain_labels) labels ≡ l ∷ ls =
      ap (λ (m : ℕ). take m labels) n
      ∙ ap (take (length (l ∷ ls))) ends.splits
      ∙ take-length-append (l ∷ ls) vr.domain_labels in
    let decoded : env.base32_decode
          (join (take (length labels - length vr.domain_labels) labels) [])
        ≡ some (nonce ++ (take 16 (env.hmac vr.pubkey nonce) ++ proof.rest)) =
      ap (λ (f : List Bytes). env.base32_decode (join f [])) is_front ∙ proof.decodes in
    rw (long, decoded, probe_nonce) (check_proof_complete env vr (join (l ∷ ls) []) nonce proof)

labels_match_refl : (wants : List Bytes) → labels_match wants wants ≡ true
unfolding labels_match
labels_match_refl [] = refl
labels_match_refl (w ∷ ws) = rw (bytes_eq_refl w) (labels_match_refl ws)

EndsIn-route_fits :
    (labels front : List Bytes) (vr : VerifyRoute)
    → EndsIn vr labels front
    → route_fits labels vr ≡ true
unfolding route_fits
EndsIn-route_fits labels [] vr ends = absurd (ends.nonempty refl)
EndsIn-route_fits labels (l ∷ ls) vr ends =
    let size : length labels ≡ suc (length ls) + length vr.domain_labels =
      ap length ends.splits ∙ length-append (l ∷ ls) vr.domain_labels in
    let long : leb (1 + length vr.domain_labels) (length labels) ≡ true = ground arith in
    let n : length labels - length vr.domain_labels ≡ length (l ∷ ls) = omega arith in
    let back : drop (length labels - length vr.domain_labels) labels ≡ vr.domain_labels =
      ap (λ (m : ℕ). drop m labels) n
      ∙ ap (drop (length (l ∷ ls))) ends.splits
      ∙ drop-length-append (l ∷ ls) vr.domain_labels in
    rw (long, back) (labels_match_refl vr.domain_labels)

-- The first route under whose domain the name is.
find_verify_route-first :
    (before after : List VerifyRoute) (vr : VerifyRoute) (labels front : List Bytes)
    → All (λ (r : VerifyRoute). (f : List Bytes) → ¬ EndsIn r labels f) before
    → EndsIn vr labels front
    → find_verify_route (before ++ (vr ∷ after)) labels ≡ some vr
unfolding find_verify_route
find_verify_route-first [] after vr labels front others ends =
    rw (EndsIn-route_fits labels front vr ends)
find_verify_route-first (r ∷ before) after vr labels front others ends =
    elim (Bool-cases (route_fits labels r)) [
      | inl fits ↦ absurd (others.0 _ (route_fits-EndsIn labels r fits))
      | inr misses ↦ rw misses (find_verify_route-first before after vr labels front others.1 ends)
    ]

-- A probe in the wire format whose proof is right for the first route under whose domain its name is.
pub record Probe (env : Env) (before : List VerifyRoute) (vr : VerifyRoute) (packet nonce : Bytes)
    (q_end : ℕ) : Type 0 where
  pub labels : List Bytes
  pub front : List Bytes
  pub asked : TxtQuery packet labels q_end
  pub others : All (λ (r : VerifyRoute). (f : List Bytes) → ¬ EndsIn r labels f) before
  pub ends : EndsIn vr labels front
  pub proof : IsProof env vr (join front []) nonce

handle_verify-reply_to :
    (env : Env) (before after : List VerifyRoute) (vr : VerifyRoute) (packet nonce : Bytes)
    (q_end : ℕ)
    → Probe env before vr packet nonce q_end
    → handle_verify env (before ++ (vr ∷ after)) packet ≡ reply_to env vr nonce packet q_end
unfolding handle_verify
handle_verify-reply_to env before after vr packet nonce q_end p = rw (
  TxtQuery-txt_question packet p.labels q_end p.asked,
  find_verify_route-first before after vr p.labels p.front p.others p.ends,
  probe_nonce_complete env vr p.labels p.front nonce p.ends p.proof,
  handle_verify,
)

-- Conversely, every packet that is, in the wire format, a query with one question of type TXT, for a name of labels of 1 to
-- 191 bytes that in lower case end in the domain of a route, of the routes the first such, and whose labels in front decode
-- to a nonce and its proof under the key of that route, is answered if the nonce asks for 200 to 4096 bytes: with the TXT
-- response whose payload begins with the HMAC of the nonce and the byte 1.
pub handle_verify_complete :
    (env : Env) (before after : List VerifyRoute) (vr : VerifyRoute) (packet nonce : Bytes)
    (q_end : ℕ)
    → Probe env before vr packet nonce q_end
    → 200 ≤ get_u16 nonce 14
    → get_u16 nonce 14 ≤ 4096
    → handle_verify env (before ++ (vr ∷ after)) packet
      ≡ reply (build_response packet q_end (payload_of env vr nonce packet q_end) 4096)
handle_verify_complete env before after vr packet nonce q_end p low high =
    handle_verify-reply_to env before after vr packet nonce q_end p
    ∙ reply_to-sized env vr nonce packet q_end low high

-- A query with one TXT question, in the wire format, with a right proof makes the handler panic, whatever the draws, if instead its nonce asks for less than 200 or
-- more than 4096 bytes and the EDNS0 payload size that `parseEDNS0` reads from the packet is 1 to 3, or is at least 5600
-- plus twice the end of the question.
pub handle_verify_panic :
    (env : Env) (before after : List VerifyRoute) (vr : VerifyRoute) (packet nonce : Bytes)
    (q_end : ℕ)
    → Probe env before vr packet nonce q_end
    → (get_u16 nonce 14 < 200) ⊎ (4096 < get_u16 nonce 14)
    → ((0 < parse_edns0 packet q_end) × (parse_edns0 packet q_end < 4))
      ⊎ (5600 + 2 * q_end ≤ parse_edns0 packet q_end)
    → handle_verify env (before ++ (vr ∷ after)) packet ≡ panic
handle_verify_panic env before after vr packet nonce q_end p nonce_size size =
    handle_verify-reply_to env before after vr packet nonce q_end p
    ∙ reply_to_panic env vr nonce packet q_end nonce_size size
