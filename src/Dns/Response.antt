-- ===== src/Dns/Response.antt =====
-- The TXT response of internal/dnsrouter/verify.go: `buildBinaryTXTResponseWithEDNS`.
pub mod Strings
pub mod Size
use slipgate.Prelude.{
  ℕ, zero, suc, ◌+◌, ◌-◌, ◌/◌, ◌%◌, Bool, List, [], ◌∷◌, ◌++◌, ltb, if◌then◌else◌, Bytes, length,
  take, drop, slice, get_or, u16_bytes,
}

-- The loop over `remaining`: character strings of at most 255 bytes, each behind its length.
-- The fuel bounds the rounds.
unfoldable pub char_strings : ℕ → Bytes → Bytes
char_strings zero remaining = []
char_strings (suc fuel) [] = []
char_strings (suc fuel) (c ∷ cs) =
    let chunk = take 255 (c ∷ cs) in
    (length chunk % 256) ∷ (chunk ++ char_strings fuel (drop (length chunk) (c ∷ cs)))

abbrev pub rdata_of : Bytes → Bytes
rdata_of payload = char_strings (length payload) payload

-- the header: the ID of the query, QR=1 and AA=1, and the four counts
abbrev pub response_header : Bytes → Bytes
response_header query =
    get_or query 0 0 ∷ get_or query 1 0 ∷ 0x84 ∷ 0 ∷ 0 ∷ 1 ∷ 0 ∷ 1 ∷ 0 ∷ 0 ∷ 0 ∷ 1 ∷ []

-- the name pointer, TYPE, CLASS and TTL of the answer
abbrev pub answer_head : Bytes
answer_head = 0xC0 ∷ 0x0C ∷ 0 ∷ 0x10 ∷ 0 ∷ 1 ∷ 0 ∷ 0 ∷ 0 ∷ 0x3C ∷ []

-- the OPT pseudo-record
abbrev pub opt_record : ℕ → Bytes
opt_record size = 0 ∷ 0 ∷ 0x29 ∷ (u16_bytes size ++ (0 ∷ 0 ∷ 0 ∷ 0 ∷ 0 ∷ 0 ∷ []))

unfoldable pub build_response : Bytes → ℕ → Bytes → ℕ → Bytes
unfolding char_strings
build_response query q_end payload size =
    response_header query
    ++ (slice query 12 (q_end - 12)
        ++ (answer_head
            ++ (u16_bytes (length (rdata_of payload)) ++ (rdata_of payload ++ opt_record size))))
