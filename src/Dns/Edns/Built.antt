-- ===== src/Dns/Edns/Built.antt =====
-- `parseEDNS0PayloadSize` of internal/dnsrouter/verify.go on the responses that the router builds.
use mathlib.Core.Path.{subst}
use slipgate.Prelude.{
  ℕ, ◌+◌, ◌-◌, ◌%◌, ◌≤◌, ◌<◌, ◌≡◌, refl, ap, ◌∙◌, false, ◌∷◌, ◌++◌, some, arith, ltb, Bytes, length,
  drop, slice, get_u16, get_or-at, length-at, get_u16-drop, length-take, length-drop, length-append,
  drop-length-append, u16_bytes, drop-drop,
}
use slipgate.Dns.Response.{rdata_of, build_response, response_header, answer_head, opt_record}
use slipgate.Dns.Response.Size.{length-build_response}
use slipgate.Dns.Response.Strings.{length-char_strings}
use slipgate.Dns.Edns.{
  skip_name_from, skip_name, record_at, after_record, skip_records, find_opt, parse_edns0,
}

-- A record whose name is a pointer, and one whose name is the root, at an offset.
module _ (packet : Bytes) (offset : ℕ) {rest : Bytes} where
  skip_name-pointer : drop offset packet ≡ 0xC0 ∷ rest → skip_name packet offset ≡ some (offset + 2)
  unfolding skip_name skip_name_from
  skip_name-pointer at = ground (arith, get_or-at packet offset at 0, length-at packet offset at)

  skip_name-root : drop offset packet ≡ 0 ∷ rest → skip_name packet offset ≡ some (offset + 1)
  unfolding skip_name skip_name_from
  skip_name-root at = ground (arith, get_or-at packet offset at 0, length-at packet offset at)

-- a response behind its question
abbrev tail_of : ℕ → Bytes → Bytes
tail_of size rdata = answer_head ++ (u16_bytes (length rdata) ++ (rdata ++ opt_record size))

module _ (packet : Bytes) (q_end size : ℕ) (rdata : Bytes) where
  module _ (at : drop q_end packet ≡ tail_of size rdata) (short : length rdata < 65536) where
    total : length packet ≡ q_end + 23 + length rdata
    total = omega (arith, length-at packet q_end at, length-append rdata (opt_record size))

    answer : skip_records 1 packet q_end ≡ some (q_end + 12 + length rdata)
    unfolding skip_records record_at after_record
    answer =
        let name = skip_name-pointer packet q_end at in
        let e : q_end + 2 + 8 ≡ q_end + 10 = omega arith in
        let len : get_u16 packet (q_end + 2 + 8) ≡ length rdata =
          ap (λ (i : ℕ). get_u16 packet i) e
          ∙ get_u16-drop q_end 10 packet
          ∙ ap (λ (xs : Bytes). get_u16 xs 10) at
          ∙ omega arith in
        ground (arith, name, total, len)

    abbrev opt_at : ℕ
    opt_at = q_end + 12 + length rdata

    opt_here : drop opt_at packet ≡ opt_record size
    opt_here =
        drop-drop (q_end + 12) (length rdata) packet
        ∙ ap (drop (length rdata)) (drop-drop q_end 12 packet ∙ ap (drop 12) at)
        ∙ drop-length-append rdata (opt_record size)

    opt_word : (i : ℕ) → get_u16 packet (opt_at + i) ≡ get_u16 (opt_record size) i
    opt_word i = get_u16-drop opt_at i packet ∙ ap (λ (xs : Bytes). get_u16 xs i) opt_here

    additional : find_opt 1 packet opt_at ≡ size % 65536
    unfolding find_opt record_at
    additional =
        let name = skip_name-root packet opt_at opt_here in
        let e : opt_at + 1 + 2 ≡ opt_at + 3 = omega arith in
        let kind : get_u16 packet (opt_at + 1) ≡ 41 = opt_word 1 in
        let value : get_u16 packet (opt_at + 1 + 2) ≡ size % 65536 =
          ap (λ (i : ℕ). get_u16 packet i) e ∙ opt_word 3 ∙ omega arith in
        ground (arith, name, total, kind, value)

drop-build_response :
    (query : Bytes) (q_end : ℕ) (payload : Bytes) (size : ℕ)
    → 12 ≤ q_end
    → q_end ≤ length query
    → drop q_end (build_response query q_end payload size) ≡ tail_of size (rdata_of payload)
unfolding build_response
drop-build_response query q_end payload size low high =
    let question = slice query 12 (q_end - 12) in
    let front = response_header query ++ question in
    let here : length front ≡ q_end =
      omega (arith, length-take (q_end - 12) (drop 12 query), length-drop 12 query) in
    subst
      (λ (n : ℕ).
        drop n (front ++ tail_of size (rdata_of payload)) ≡ tail_of size (rdata_of payload))
      here (drop-length-append front (tail_of size (rdata_of payload)))

-- the counts of the header: one answer, no authority, one additional record
counts :
    (query : Bytes) (q_end : ℕ) (payload : Bytes) (size value : ℕ)
    → 12 ≤ q_end
    → q_end ≤ length query
    → skip_records 1 (build_response query q_end payload size) q_end
      ≡ some (q_end + 12 + length (rdata_of payload))
    → find_opt 1 (build_response query q_end payload size) (q_end + 12 + length (rdata_of payload))
      ≡ value
    → parse_edns0 (build_response query q_end payload size) q_end ≡ value
unfolding parse_edns0 build_response
counts query q_end payload size value low high found e =
    let packet = build_response query q_end payload size in
    let long : ltb (length packet) 12 ≡ false =
      ground (arith, length-build_response query q_end payload size low high) in
    rw (long, words.0, words.1, words.2, found, parse_edns0) e
  where
    words :
        (get_u16 (build_response query q_end payload size) 10 ≡ 1)
        × (get_u16 (build_response query q_end payload size) 6 ≡ 1)
        × (get_u16 (build_response query q_end payload size) 8 ≡ 0)
    words = unfold build_response in (refl, refl, refl)

-- The payload size that the router advertises in a response is what `parseEDNS0PayloadSize` reads from it,
-- for any query whose question ends at `q_end`, any payload up to 4096 bytes and any size.
pub parse_edns0-build_response :
    (query : Bytes) (q_end : ℕ) (payload : Bytes) (size : ℕ)
    → 12 ≤ q_end
    → q_end ≤ length query
    → length payload ≤ 4096
    → size < 65536
    → parse_edns0 (build_response query q_end payload size) q_end ≡ size
parse_edns0-build_response query q_end payload size low high small fits =
    let rdata = rdata_of payload in
    let packet = build_response query q_end payload size in
    let short : length rdata < 65536 =
      omega (arith, length-char_strings (length payload) payload (omega arith)) in
    let at = drop-build_response query q_end payload size low high in
    let found = answer packet q_end size rdata at short in
    let value = additional packet q_end size rdata at short in
    counts query q_end payload size (size % 65536) low high found value ∙ omega arith
