-- ===== src/Dns/Response/Size.antt =====
-- The size of a verification response.
use slipgate.Prelude.{
  ℕ, ◌+◌, ◌-◌, ◌/◌, ◌≤◌, ◌≡◌, ◌++◌, arith, Bytes, length, drop, slice, length-take, length-drop,
  length-append, u16_bytes,
}
use slipgate.Dns.Response.{rdata_of, build_response, answer_head, opt_record}
use slipgate.Dns.Response.Strings.{length-char_strings}

-- For a question that ends at `q_end` inside the query, the response has the 12 bytes of the header, the question,
-- the record data with its 12 bytes in front, and the 11 bytes of the OPT record.
pub length-build_response :
    (query : Bytes) (q_end : ℕ) (payload : Bytes) (size : ℕ)
    → 12 ≤ q_end
    → q_end ≤ length query
    → length (build_response query q_end payload size)
      ≡ q_end + 23 + length payload + (length payload + 254) / 255
unfolding build_response
length-build_response query q_end payload size low high = omega (
  arith,
  length-append (slice query 12 (q_end - 12)) (
      answer_head
      ++ (u16_bytes (length (rdata_of payload)) ++ (rdata_of payload ++ opt_record size))),
  length-append (rdata_of payload) (opt_record size),
  length-char_strings (length payload) payload (omega arith),
  length-take (q_end - 12) (drop 12 query),
  length-drop 12 query,
)
