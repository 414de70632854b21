-- ===== src/Proxy/WebSocket/Frames.antt =====
-- `readWSFrame` of internal/proxy/stuntls.go against the frames of the server and of masking clients.
use slipgate.Prelude.{
  ℕ, ◌+◌, ◌*◌, ◌%◌, ◌^◌, ◌≡◌, ◌<◌, ◌≤◌, inl, inr, refl, ap, ◌∙◌, Bool, true, false, ◌∷◌, ◌++◌,
  append_assoc, none, arith, ltb, leb, ◌==◌, if◌then◌else◌, Bytes, length, take, drop,
  take-length-append, drop-length-append, length-append, take-prefix, drop-prefix, All, Bool-cases,
}
use slipgate.Proxy.WebSocket.{
  be_bytes, be_value, apply_mask, frame, panic, read_payload, read_mask, read_extended, read_frame,
  frame_header, write_frame,
}
use slipgate.Proxy.WebSocket.Mask.{IsByte, length-apply_mask, apply_mask-apply_mask}

be_value-be_bytes_2 : (v : ℕ) → v < 2 ^ 16 → be_value 0 (be_bytes 2 v) ≡ v
unfolding be_value be_bytes
be_value-be_bytes_2 v h = omega arith

be_value-be_bytes_8 : (v : ℕ) → v < 2 ^ 64 → be_value 0 (be_bytes 8 v) ≡ v
unfolding be_value be_bytes
be_value-be_bytes_8 v h = omega arith

-- A client's frame: its first byte holds the flags (FIN and the reserved bits) and the opcode; it is
-- masked, with the shortest form of its length.
unfoldable pub client_frame : ℕ → ℕ → Bytes → Bytes → Bytes
client_frame flags opcode mask payload =
    if leb (length payload) 125
    then (flags * 16 + opcode) ∷ (128 + length payload) ∷ (mask ++ apply_mask mask 0 payload)
    else if leb (length payload) 65535
    then (flags * 16 + opcode)
      ∷ (128 + 126)
      ∷ (be_bytes 2 (length payload) ++ (mask ++ apply_mask mask 0 payload))
    else (flags * 16 + opcode)
      ∷ (128 + 127)
      ∷ (be_bytes 8 (length payload) ++ (mask ++ apply_mask mask 0 payload))

module _ (limit opcode : ℕ) (rest : Bytes) where
  read_payload-plain :
      (payload : Bytes)
      → length payload ≤ limit
      → read_payload limit opcode (length payload) none (payload ++ rest)
        ≡ frame opcode payload rest
  unfolding read_payload
  read_payload-plain payload fits =
      let small : ltb limit (length payload) ≡ false = ground arith in
      let there : ltb (length (payload ++ rest)) (length payload) ≡ false =
        ground (arith, length-append payload rest) in
      rw (small, there, take-length-append, drop-length-append)

  read_mask-masked :
      (mask payload : Bytes)
      → length mask ≡ 4
      → All IsByte mask
      → All IsByte payload
      → length payload ≤ limit
      → read_mask limit opcode (length payload) true ((mask ++ apply_mask mask 0 payload) ++ rest)
        ≡ frame opcode payload rest
  unfolding read_mask read_payload
  read_mask-masked mask payload four hm hp fits =
      let hidden = apply_mask mask 0 payload in
      let size : length hidden ≡ length payload = length-apply_mask mask 0 payload in
      let small : ltb limit (length payload) ≡ false = ground arith in
      let enough : ltb (length (mask ++ (hidden ++ rest))) 4 ≡ false =
        ground (arith, length-append mask (hidden ++ rest)) in
      let there : ltb (length (hidden ++ rest)) (length payload) ≡ false =
        ground (arith, length-append hidden rest) in
      let front : take (length payload) (hidden ++ rest) ≡ hidden =
        take-prefix (length payload) hidden rest size in
      let back : drop (length payload) (hidden ++ rest) ≡ rest =
        drop-prefix (length payload) hidden rest size in
      ap (read_mask limit opcode (length payload) true) (append_assoc mask hidden rest)
      ∙ rw (
        enough,
        take-prefix 4 mask (hidden ++ rest) four,
        drop-prefix 4 mask (hidden ++ rest) four,
        small,
        there,
        front,
        back,
        apply_mask-apply_mask mask 0 payload hm hp,
      )

  read_extended-be_bytes :
      (n len : ℕ) (masked : Bool) (input : Bytes)
      → length (be_bytes n len) ≡ n
      → be_value 0 (be_bytes n len) ≡ len
      → read_extended limit opcode n masked (be_bytes n len ++ input)
        ≡ read_mask limit opcode len masked input
  unfolding read_extended
  read_extended-be_bytes n len masked input size val =
      let enough : ltb (length (be_bytes n len ++ input)) n ≡ false =
        ground (arith, length-append (be_bytes n len) input) in
      rw (
        enough,
        take-prefix n (be_bytes n len) input size,
        drop-prefix n (be_bytes n len) input size,
        val,
      )

-- What the server writes, a client reads back: the opcode and the payload, and the rest of the stream.
pub read_frame-write_frame :
    (limit opcode : ℕ) (payload rest : Bytes)
    → opcode < 16
    → length payload ≤ limit
    → length payload < 2 ^ 64
    → read_frame limit (write_frame opcode payload ++ rest) ≡ frame opcode payload rest
unfolding read_frame write_frame frame_header
read_frame-write_frame limit opcode payload rest op fits short =
    let size = length payload in
    let code : (128 + opcode) % 16 ≡ opcode = omega arith in
    elim (Bool-cases (leb size 125)) [
      | inl tiny ↦
          let tests : (size % 128 ≡ size)
              × (size == 126 ≡ false)
              × (size == 127 ≡ false)
              × (leb 128 size ≡ false) =
            ground arith in
          rw (tiny, code, tests.0, tests.1, tests.2, tests.3)
            (unfold read_mask in read_payload-plain limit opcode rest payload fits)
      | inr more ↦ elim (Bool-cases (leb size 65535)) [
        | inl medium ↦
            rw (more, medium, code, append_assoc)
              (read_extended-be_bytes limit opcode rest 2 size false (payload ++ rest)
                  (unfold be_bytes in refl) (be_value-be_bytes_2 size (ground arith))
                ∙ unfold read_mask in read_payload-plain limit opcode rest payload fits)
        | inr large ↦
            rw (more, large, code, append_assoc)
              (read_extended-be_bytes limit opcode rest 8 size false (payload ++ rest)
                  (unfold be_bytes in refl) (be_value-be_bytes_8 size short)
                ∙ unfold read_mask in read_payload-plain limit opcode rest payload fits)
      ]
    ]

-- What a client sends, with any flags and masked with any four bytes, the server reads: the opcode, the payload unmasked, and the
-- rest of the stream.
pub read_frame-client_frame :
    (limit flags opcode : ℕ) (mask payload rest : Bytes)
    → opcode < 16
    → length mask ≡ 4
    → All IsByte mask
    → All IsByte payload
    → length payload ≤ limit
    → length payload < 2 ^ 64
    → read_frame limit (client_frame flags opcode mask payload ++ rest) ≡ frame opcode payload rest
unfolding read_frame client_frame
read_frame-client_frame limit flags opcode mask payload rest op four hm hp fits short =
    let size = length payload in
    let code : (flags * 16 + opcode) % 16 ≡ opcode = omega arith in
    let hidden = mask ++ apply_mask mask 0 payload in
    let masked = read_mask-masked limit opcode rest mask payload four hm hp fits in
    elim (Bool-cases (leb size 125)) [
      | inl tiny ↦
          let tests : ((128 + size) % 128 ≡ size)
              × (size == 126 ≡ false)
              × (size == 127 ≡ false)
              × (leb 128 (128 + size) ≡ true) =
            ground arith in
          rw (tiny, code, tests.0, tests.1, tests.2, tests.3) masked
      | inr more ↦ elim (Bool-cases (leb size 65535)) [
        | inl medium ↦
            rw (more, medium, code, append_assoc (be_bytes 2 size) hidden rest)
              (read_extended-be_bytes limit opcode rest 2 size true (hidden ++ rest)
                  (unfold be_bytes in refl) (be_value-be_bytes_2 size (ground arith))
                ∙ masked)
        | inr large ↦
            rw (more, large, code, append_assoc (be_bytes 8 size) hidden rest)
              (read_extended-be_bytes limit opcode rest 8 size true (hidden ++ rest)
                  (unfold be_bytes in refl) (be_value-be_bytes_8 size short)
                ∙ masked)
      ]
    ]

-- A frame header that declares, in its eight-byte form, more than Go can allocate makes the reader panic, whatever follows.
pub read_frame_panic :
    (limit h0 h1 len : ℕ) (rest : Bytes)
    → h1 ≡ 127
    → limit < len
    → len < 2 ^ 64
    → read_frame limit (h0 ∷ h1 ∷ (be_bytes 8 len ++ rest)) ≡ panic
unfolding read_frame read_mask read_payload
read_frame_panic limit h0 h1 len rest is_127 big fits =
    let over : ltb limit len ≡ true = ground arith in
    rw is_127 (
      read_extended-be_bytes limit (h0 % 16) rest 8 len false rest (unfold be_bytes in refl)
        (be_value-be_bytes_8 len fits)
      ∙ rw over)
