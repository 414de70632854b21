-- ===== src/Tests/Verify.antt =====
-- Probes of internal/dnsrouter/verify.go, and the theorems on them.
use slipgate.Prelude.{
  length-append, ℕ, zero, suc, ◌+◌, ◌≡◌, ◌≤◌, ◌⊎◌, inl, refl, ap, List, [], ◌∷◌, ◌++◌, some, arith,
  Bytes, codes, bytes_eq, to_lower, lower_byte, join, length, get_or,
}
use slipgate.Prelude.Table.{text_eq, nat_eq}
use slipgate.Dns.Response.{build_response}
use slipgate.Dns.Edns.{
  skip_name_from, skip_name, record_at, after_record, skip_records, find_opt, parse_edns0,
}
use slipgate.Dns.Verify.{
  VerifyRoute, Env, reply, panic, read_question, txt_question, labels_match, route_fits,
  find_verify_route, choose_mtu, target_total, target_data, check_proof, probe_nonce, reply_to,
  handle_verify,
}
use slipgate.Dns.Verify.Padding.{payload_of, length-reply_to}
use slipgate.Dns.Verify.Authentic.{EndsIn, Answered, handle_verify-Answered}
use slipgate.Dns.Verify.Answers.{Probe, handle_verify_complete, handle_verify_panic}

pub zeros : ℕ → Bytes
zeros zero = []
zeros (suc n) = 0 ∷ zeros n

pub length-zeros : (n : ℕ) → length (zeros n) ≡ n
unfolding zeros
length-zeros zero = refl
length-zeros (suc n) = ap suc (length-zeros n)

-- An HMAC of the first bytes, labels that are not encoded, and no draw and no padding but zero.
abbrev pub env : Env
env = record {
  hmac = λ key message. get_or key 0 0 ∷ get_or message 0 0 ∷ zeros 30;
  base32_decode = λ text. some text;
  draw = λ n. 0;
  padding = zeros;
  length-hmac = λ key message. ap (λ (n : ℕ). suc (suc n)) (length-zeros 30);
  draw_lt = λ n pos. pos;
  length-padding = length-zeros;
}

abbrev nonce : Bytes
nonce = 1 ∷ 2 ∷ 3 ∷ 4 ∷ 5 ∷ 6 ∷ 7 ∷ 8 ∷ 9 ∷ 10 ∷ 11 ∷ 12 ∷ 13 ∷ 14 ∷ 0 ∷ 0 ∷ []

abbrev proof : Bytes
proof = 42 ∷ 1 ∷ 0 ∷ 0 ∷ 0 ∷ 0 ∷ 0 ∷ 0 ∷ 0 ∷ 0 ∷ 0 ∷ 0 ∷ 0 ∷ 0 ∷ 0 ∷ 0 ∷ []

abbrev pub header : Bytes
header = 7 ∷ 9 ∷ 1 ∷ 0 ∷ 0 ∷ 1 ∷ 0 ∷ 0 ∷ 0 ∷ 0 ∷ 0 ∷ 0 ∷ []

-- A TXT query for the nonce and the proof under "t".
abbrev probe : Bytes
probe = header ++ (32 ∷ (nonce ++ (proof ++ (1 ∷ 116 ∷ 0 ∷ 0 ∷ 16 ∷ 0 ∷ 1 ∷ []))))

abbrev route : VerifyRoute
route = record { domain_labels = codes "t" ∷ []; pubkey = 42 ∷ []; mtu = 300 }

abbrev response : Bytes
response = build_response probe 52 (payload_of env route nonce probe 52) 4096

replies : reply_to env route nonce probe 52 ≡ reply response
unfolding reply_to choose_mtu target_total target_data parse_edns0 skip_name skip_name_from
    after_record record_at skip_records find_opt
replies = refl

answers : handle_verify env (route ∷ []) probe ≡ reply response
unfolding handle_verify txt_question read_question find_verify_route route_fits labels_match
    probe_nonce check_proof bytes_eq to_lower lower_byte join zeros
answers = replies

handle_verify-Answered_example : Answered env (route ∷ []) probe response
handle_verify-Answered_example = handle_verify-Answered env (route ∷ []) probe response answers

length-reply_to_example :
    (length response ≤ choose_mtu route nonce probe 52)
    ⊎ ((length response ≤ 200) ⊎ (length response ≡ 52 + 56))
length-reply_to_example =
    length-reply_to env route nonce probe 52 response replies (omega arith) (omega arith)

-- A nonce that asks for 300 bytes.
abbrev sized : Bytes
sized = 1 ∷ 2 ∷ 3 ∷ 4 ∷ 5 ∷ 6 ∷ 7 ∷ 8 ∷ 9 ∷ 10 ∷ 11 ∷ 12 ∷ 13 ∷ 14 ∷ 1 ∷ 44 ∷ []

-- A probe for a nonce under "t" behind a header, and what follows the question.
abbrev probe_of : Bytes → Bytes → Bytes → Bytes
probe_of head n rest = head ++ (32 ∷ (n ++ (proof ++ (1 ∷ 116 ∷ 0 ∷ 0 ∷ 16 ∷ 0 ∷ 1 ∷ rest))))

-- A route that is not asked for.
abbrev other_route : VerifyRoute
other_route = record {
  domain_labels = codes "a" ∷ codes "b" ∷ codes "c" ∷ [];
  pubkey = [];
  mtu = 0;
}

not_other : (n : Bytes) (f : List Bytes) → ¬ EndsIn other_route ((n ++ proof) ∷ codes "t" ∷ []) f
not_other n f e =
    absurd
      (omega (arith, ap length e.splits, length-append f (codes "a" ∷ codes "b" ∷ codes "c" ∷ [])))

sized-Probe : Probe env (other_route ∷ []) route (probe_of header sized []) sized 52
unfolding to_lower lower_byte join zeros
sized-Probe = record {
  labels = (sized ++ proof) ∷ codes "t" ∷ [];
  front = (sized ++ proof) ∷ [];
  asked = record {
    header = header;
    raws = (sized ++ proof) ∷ codes "t" ∷ [];
    class_high = 0;
    class_low = 1;
    rest = [];
    packet_is = refl;
    length-header = refl;
    raws_ok = ((omega arith, omega arith), ((omega arith, omega arith), tt));
    labels_are = refl;
    is_query = omega arith;
    one_question = refl;
    ends = refl;
  };
  others = (not_other sized, tt);
  ends = record { splits = refl; nonempty = λ e. cc };
  proof = record { rest = []; length-nonce = refl; decodes = refl };
}

handle_verify_complete_example :
    handle_verify env (other_route ∷ route ∷ []) (probe_of header sized [])
    ≡ reply (
        build_response
          (probe_of header sized [])
          52
          (payload_of env route sized (probe_of header sized []) 52)
          4096)
handle_verify_complete_example =
    handle_verify_complete env (other_route ∷ []) [] route (probe_of header sized []) sized 52
      sized-Probe (omega arith) (omega arith)

-- A probe with a right proof that advertises three bytes.
abbrev tiny_header : Bytes
tiny_header = 7 ∷ 9 ∷ 1 ∷ 0 ∷ 0 ∷ 1 ∷ 0 ∷ 0 ∷ 0 ∷ 0 ∷ 0 ∷ 1 ∷ []

abbrev tiny_record : Bytes
tiny_record = 0 ∷ 0 ∷ 41 ∷ 0 ∷ 3 ∷ 0 ∷ 0 ∷ 0 ∷ 0 ∷ 0 ∷ 0 ∷ []

abbrev tiny : Bytes
tiny = probe_of tiny_header nonce tiny_record

tiny_size : parse_edns0 tiny 52 ≡ 3
unfolding parse_edns0 skip_name skip_name_from after_record record_at skip_records find_opt
tiny_size = refl

tiny-Probe : Probe env (other_route ∷ []) route tiny nonce 52
unfolding to_lower lower_byte join zeros
tiny-Probe = record {
  labels = (nonce ++ proof) ∷ codes "t" ∷ [];
  front = (nonce ++ proof) ∷ [];
  asked = record {
    header = tiny_header;
    raws = (nonce ++ proof) ∷ codes "t" ∷ [];
    class_high = 0;
    class_low = 1;
    rest = tiny_record;
    packet_is = refl;
    length-header = refl;
    raws_ok = ((omega arith, omega arith), ((omega arith, omega arith), tt));
    labels_are = refl;
    is_query = omega arith;
    one_question = refl;
    ends = refl;
  };
  others = (not_other nonce, tt);
  ends = record { splits = refl; nonempty = λ e. cc };
  proof = record { rest = []; length-nonce = refl; decodes = refl };
}

handle_verify_panic_example : handle_verify env (other_route ∷ route ∷ []) tiny ≡ panic
handle_verify_panic_example =
    handle_verify_panic env (other_route ∷ []) [] route tiny nonce 52 tiny-Probe (inl (omega arith))
      (inl (omega (arith, tiny_size), omega (arith, tiny_size)))
