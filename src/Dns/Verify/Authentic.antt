-- ===== src/Dns/Verify/Authentic.antt =====
-- `handleVerify` of internal/dnsrouter/verify.go against the packets that it may answer.
use mathlib.Core.Path.{subst}
use slipgate.Prelude.{
  ℕ, ◌+◌, ◌-◌, ◌≤◌, ◌≡◌, ◌≢◌, inl, inr, refl, sym, ap, ◌∙◌, true, List, [], ◌∷◌, ◌++◌, some, arith,
  leb, Bytes, bytes_eq_iff, join, length, take, drop, slice, Bool-cases, Option-cases, Memᴰ,
  length-take, length-drop, take-append-drop,
}
use slipgate.Dns.Response.{build_response}
use slipgate.Dns.Verify.{
  VerifyRoute, Env, reply, txt_question, labels_match, route_fits, find_verify_route, check_proof,
  probe_nonce, handle_verify,
}
use slipgate.Dns.Verify.Padding.{payload_of, reply_to-eq-reply}
use slipgate.Dns.Verify.Question.{TxtQuery, txt_question-TxtQuery}

-- The labels end in those of the route's domain, with at least one label in front.
pub record EndsIn (vr : VerifyRoute) (labels front : List Bytes) : Type 0 where
  pub splits : labels ≡ front ++ vr.domain_labels
  pub nonempty : front ≢ []

-- A right proof: the text before the domain decodes to a nonce of 16 bytes and the first 16 bytes of its
-- HMAC under the key of the route, and perhaps more.
pub record IsProof (env : Env) (vr : VerifyRoute) (text nonce : Bytes) : Type 0 where
  pub rest : Bytes
  pub length-nonce : length nonce ≡ 16
  pub decodes :
      env.base32_decode text ≡ some (nonce ++ (take 16 (env.hmac vr.pubkey nonce) ++ rest))

labels_match-eq :
    (wants labels : List Bytes)
    → length labels ≡ length wants
    → labels_match wants labels ≡ true
    → labels ≡ wants
unfolding labels_match
labels_match-eq [] [] e h = refl
labels_match-eq [] (l ∷ ls) e h = absurd (omega arith)
labels_match-eq (w ∷ ws) [] e h = cc
labels_match-eq (w ∷ ws) (l ∷ ls) e h = ground (arith, labels_match-eq ws ls, bytes_eq_iff l w)

pub route_fits-EndsIn :
    (labels : List Bytes) (vr : VerifyRoute)
    → route_fits labels vr ≡ true
    → EndsIn vr labels (take (length labels - length vr.domain_labels) labels)
unfolding route_fits
route_fits-EndsIn labels vr h =
    let n = length labels - length vr.domain_labels in
    let long : 1 + length vr.domain_labels ≤ length labels = ground arith in
    let same : drop n labels ≡ vr.domain_labels =
      labels_match-eq vr.domain_labels (drop n labels) (omega (arith, length-drop n labels))
        (ground arith) in
    record {
      splits = sym (take-append-drop n labels) ∙ ap (λ (b : List Bytes). take n labels ++ b) same;
      nonempty = λ e. absurd (omega (arith, ap length e, length-take n labels));
    }

find_verify_route-Memᴰ :
    (routes : List VerifyRoute) (labels : List Bytes) (vr : VerifyRoute)
    → find_verify_route routes labels ≡ some vr
    → Memᴰ vr routes × (route_fits labels vr ≡ true)
unfolding find_verify_route
find_verify_route-Memᴰ [] labels vr h = cc
find_verify_route-Memᴰ (r ∷ routes) labels vr h = elim (Bool-cases (route_fits labels r)) [
  | inl fits ↦
      let this : r ≡ vr = ground arith in
      (Memᴰ.head (sym this), subst (λ (v : VerifyRoute). route_fits labels v ≡ true) this fits)
  | inr other ↦
      let rest = find_verify_route-Memᴰ routes labels vr (rw other at h) in
      (Memᴰ.tail rest.0, rest.1)
]

check_proof-IsProof :
    (env : Env) (vr : VerifyRoute) (text decoded nonce : Bytes)
    → env.base32_decode text ≡ some decoded
    → check_proof env vr decoded ≡ some nonce
    → IsProof env vr text nonce
unfolding check_proof
check_proof-IsProof env vr text decoded nonce e h =
    let long : 32 ≤ length decoded = ground arith in
    let is_nonce : take 16 decoded ≡ nonce = ground arith in
    let proof : slice decoded 16 16 ≡ take 16 (env.hmac vr.pubkey (take 16 decoded)) = ground (
      arith,
      bytes_eq_iff (slice decoded 16 16) (take 16 (env.hmac vr.pubkey (take 16 decoded))),
    ) in
    let rest = drop 16 (drop 16 decoded) in
    let parts : take 16 decoded ++ (take 16 (env.hmac vr.pubkey (take 16 decoded)) ++ rest)
        ≡ decoded =
      ap (λ (b : Bytes). take 16 decoded ++ (b ++ rest)) (sym proof)
      ∙ ap (λ (b : Bytes). take 16 decoded ++ b) (take-append-drop 16 (drop 16 decoded))
      ∙ take-append-drop 16 decoded in
    subst (λ (n : Bytes). IsProof env vr text n) is_nonce
      (record {
        rest = rest;
        length-nonce = omega (arith, length-take 16 decoded);
        decodes = e ∙ ap some (sym parts);
      })

probe_nonce-IsProof :
    (env : Env) (vr : VerifyRoute) (labels : List Bytes) (nonce : Bytes)
    → probe_nonce env vr labels ≡ some nonce
    → IsProof env vr (join (take (length labels - length vr.domain_labels) labels) []) nonce
unfolding probe_nonce
probe_nonce-IsProof env vr labels nonce h =
    elim (Bool-cases (leb (length labels) (length vr.domain_labels))) [
      | inl short ↦ cc (rw short at h)
      | inr long ↦ elim (Option-cases (env.base32_decode text)) [
        | inl bad ↦ cc (rw (long, bad, probe_nonce) at h)
        | inr (decoded, e) ↦
            check_proof-IsProof env vr text decoded nonce e (rw (long, e, probe_nonce) at h)
      ]
    ]
  where
    text : Bytes
    text = join (take (length labels - length vr.domain_labels) labels) []

-- Why a packet was answered with this response.
pub record Answered (env : Env) (routes : List VerifyRoute) (packet response : Bytes) : Type 0 where
  pub labels : List Bytes
  pub q_end : ℕ
  pub vr : VerifyRoute
  pub front : List Bytes
  pub nonce : Bytes
  pub asked : TxtQuery packet labels q_end
  pub registered : Memᴰ vr routes
  pub ends : EndsIn vr labels front
  pub proof : IsProof env vr (join front []) nonce
  pub answers : response ≡ build_response packet q_end (payload_of env vr nonce packet q_end) 4096

-- A packet that is answered by `handleVerify` is, in the wire format, a query with one question of type TXT, for a name of
-- labels of 1 to 191 bytes under the domain of a registered route, in any case; in lower case the labels in front decode to a nonce and the proof that the key of that route makes of it; and the response is
-- the TXT response whose payload begins with the HMAC of the nonce and the byte 1 under that key.
pub handle_verify-Answered :
    (env : Env) (routes : List VerifyRoute) (packet response : Bytes)
    → handle_verify env routes packet ≡ reply response
    → Answered env routes packet response
unfolding handle_verify
handle_verify-Answered env routes packet response h = elim (Option-cases (txt_question packet)) [
  | inl not_txt ↦ cc (rw (not_txt, handle_verify) at h)
  | inr ((labels, q_end), asked) ↦ elim (Option-cases (find_verify_route routes labels)) [
    | inl unknown ↦ cc (rw (asked, unknown, handle_verify) at h)
    | inr (vr, found) ↦ elim (Option-cases (probe_nonce env vr labels)) [
      | inl wrong ↦ cc (rw (asked, found, wrong, handle_verify) at h)
      | inr (nonce, right) ↦
          let (registered, fits) = find_verify_route-Memᴰ routes labels vr found in
          record {
            labels = labels;
            q_end = q_end;
            vr = vr;
            front = take (length labels - length vr.domain_labels) labels;
            nonce = nonce;
            asked = txt_question-TxtQuery packet labels q_end asked;
            registered = registered;
            ends = route_fits-EndsIn labels vr fits;
            proof = probe_nonce-IsProof env vr labels nonce right;
            answers =
                sym
                  (reply_to-eq-reply env vr nonce packet q_end response
                    (rw (asked, found, right, handle_verify) at h)).0;
          }
    ]
  ]
]
