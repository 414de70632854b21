-- ===== src/Proxy/WebSocket.antt =====
-- The WebSocket framing of internal/proxy/stuntls.go.
pub mod Frames
pub mod Mask
pub mod Relay
use Prim.Native.Nat.{bit_xor}
use slipgate.Prelude.{
  ℕ, zero, suc, ◌+◌, ◌*◌, ◌/◌, ◌%◌, ◌^◌, Bool, true, false, not, ◌||◌, List, [], ◌∷◌, ◌++◌, Option,
  none, some, ltb, leb, ◌==◌, if◌then◌else◌, Bytes, length, take, drop, get_or, u16_bytes,
}

-- The big-endian bytes of a number, and the number of such bytes.
unfoldable pub be_bytes : ℕ → ℕ → Bytes
be_bytes zero v = []
be_bytes (suc n) v = (v / 256 ^ n % 256) ∷ be_bytes n v

unfoldable pub be_value : ℕ → Bytes → ℕ
be_value acc [] = acc
be_value acc (b ∷ bs) = be_value (acc * 256 + b) bs

-- for i := range payload { payload[i] ^= mask[i%4] }
unfoldable pub apply_mask : Bytes → ℕ → Bytes → Bytes
apply_mask mask i [] = []
apply_mask mask i (b ∷ bs) = bit_xor b (get_or mask (i % 4) 0) ∷ apply_mask mask (i + 1) bs

-- What `readWSFrame` gives: a frame and the rest of the input; an error of the connection; or a
-- panic of `make`, for a length that Go cannot allocate.
pub data Frame : Type 0 where
  frame : ℕ → Bytes → Bytes → Frame
  failed : Frame
  panic : Frame

-- the payload, behind the header and the mask
unfoldable pub read_payload : ℕ → ℕ → ℕ → Option Bytes → Bytes → Frame
read_payload limit opcode len mask input =
    if ltb limit len then panic else if ltb (length input) len then failed else elim mask [
      | none ↦ frame opcode (take len input) (drop len input)
      | some m ↦ frame opcode (apply_mask m 0 (take len input)) (drop len input)
    ]

unfoldable pub read_mask : ℕ → ℕ → ℕ → Bool → Bytes → Frame
read_mask limit opcode len false input = read_payload limit opcode len none input
read_mask limit opcode len true input =
    if ltb (length input) 4
    then failed
    else read_payload limit opcode len (some (take 4 input)) (drop 4 input)

-- an extended length of `n` bytes
unfoldable pub read_extended : ℕ → ℕ → ℕ → Bool → Bytes → Frame
read_extended limit opcode n masked input =
    if ltb (length input) n
    then failed
    else read_mask limit opcode (be_value 0 (take n input)) masked (drop n input)

-- `readWSFrame`. `limit` is the longest slice that Go can allocate.
unfoldable pub read_frame : ℕ → Bytes → Frame
read_frame limit [] = failed
read_frame limit (h0 ∷ []) = failed
read_frame limit (h0 ∷ h1 ∷ input) =
    if h1 % 128 == 126
    then read_extended limit (h0 % 16) 2 (leb 128 h1) input
    else if h1 % 128 == 127
    then read_extended limit (h0 % 16) 8 (leb 128 h1) input
    else read_mask limit (h0 % 16) (h1 % 128) (leb 128 h1) input

-- `hdr` of `writeWSFrame`, with an opcode below 16
unfoldable pub frame_header : ℕ → ℕ → Bytes
frame_header opcode len =
    if leb len 125
    then (128 + opcode) ∷ len ∷ []
    else if leb len 65535
    then (128 + opcode) ∷ 126 ∷ be_bytes 2 len
    else (128 + opcode) ∷ 127 ∷ be_bytes 8 len

-- what `writeWSFrame` writes when no write fails
unfoldable pub write_frame : ℕ → Bytes → Bytes
write_frame opcode payload = frame_header opcode (length payload) ++ payload

-- One Write of a connection: it takes the whole buffer, or some first bytes and gives an error. A
-- connection is the list of what its next writes do; behind the list each fails with nothing written.
pub data Wrote : Type 0 where
  whole : Wrote
  cut : ℕ → Wrote

-- The bytes that went out, whether there was no error, and the later writes.
pub record Sent : Type 0 where
  pub out : Bytes
  pub ok : Bool
  pub left : List Wrote

unfoldable pub write_one : List Wrote → Bytes → Sent
write_one [] buffer = record { out = []; ok = false; left = [] }
write_one (whole ∷ writes) buffer = record { out = buffer; ok = true; left = writes }
write_one (cut n ∷ writes) buffer = record { out = take n buffer; ok = false; left = writes }

-- a write behind the bytes that are already out
unfoldable pub write_more : Bytes → List Wrote → Bytes → Sent
write_more done writes buffer =
    let s = write_one writes buffer in record { out = done ++ s.out; ok = s.ok; left = s.left }

-- `writeWSFrame`: the header, and the payload unless it is empty
unfoldable pub write_frame_to : List Wrote → ℕ → Bytes → Sent
write_frame_to writes opcode payload =
    let header = write_one writes (frame_header opcode (length payload)) in
    if not header.ok
    then header
    else if leb 1 (length payload)
    then write_more header.out header.left payload
    else header

-- `writeWSClose`: 1000, normal closure
unfoldable pub write_close : List Wrote → Sent
write_close writes = write_frame_to writes 8 (0x03 ∷ 0xE8 ∷ [])

-- `wsToTCP`: the bytes that reach the backend. The answer to a ping goes there too, and its error is
-- not looked at. The fuel bounds the frames.
pub data Relayed : Type 0 where
  ended crashed : Bytes → Relayed

abbrev pub prepend : Bytes → Relayed → Relayed
prepend b (ended out) = ended (b ++ out)
prepend b (crashed out) = crashed (b ++ out)

unfoldable pub ws_to_tcp : ℕ → ℕ → List Wrote → Bytes → Relayed
ws_to_tcp zero limit writes input = ended []
ws_to_tcp (suc fuel) limit writes input = elim (read_frame limit input) [
  | failed ↦ ended []
  | panic ↦ crashed []
  | frame opcode payload rest ↦ elim (leb opcode 2) [
    | true ↦
        let s = write_one writes payload in
        let later = ws_to_tcp fuel limit s.left rest in
        if s.ok then prepend s.out later else ended s.out
    | false ↦ elim (opcode == 8) [
      | true ↦ ended []
      | false ↦ elim (opcode == 9) [
        | true ↦
            let s = write_frame_to writes 10 payload in
            prepend s.out (ws_to_tcp fuel limit s.left rest)
        | false ↦ ws_to_tcp fuel limit writes rest
      ]
    ]
  ]
]

-- `tcpToWS`: what each read of the backend gave, until an error; an empty read writes nothing. It
-- gives the bytes that reach the client.
unfoldable pub tcp_to_ws : List Wrote → List Bytes → Bytes
tcp_to_ws writes [] = (write_close writes).out
tcp_to_ws writes ([] ∷ chunks) = tcp_to_ws writes chunks
tcp_to_ws writes ((b ∷ bs) ∷ chunks) =
    let s = write_frame_to writes 2 (b ∷ bs) in
    let later = tcp_to_ws s.left chunks in if s.ok then s.out ++ later else s.out
