-- ===== src/Proxy/WebSocket/Relay.antt =====
-- The two directions of the WebSocket relay, against what the two ends sent.
use slipgate.Prelude.{
  ℕ, zero, suc, ◌+◌, ◌*◌, ◌^◌, ◌≡◌, ◌<◌, ◌≤◌, refl, sym, ap, true, false, List, [], ◌∷◌, ◌++◌,
  append-nil, arith, leb, ◌==◌, if◌then◌else◌, Bytes, length, All,
}
use slipgate.Proxy.WebSocket.{
  frame, failed, panic, read_frame, frame_header, write_frame, Wrote, whole, Sent, write_one,
  write_more, write_frame_to, write_close, ended, ws_to_tcp, tcp_to_ws,
}
use slipgate.Proxy.WebSocket.Mask.{IsByte}
use slipgate.Proxy.WebSocket.Frames.{client_frame, read_frame-write_frame, read_frame-client_frame}

-- the next `n` writes are whole, before any others
abbrev pub wholes : ℕ → List Wrote → List Wrote
wholes zero more = more
wholes (suc n) more = whole ∷ wholes n more

-- A frame is one write or two.
write_frame_to-wholes :
    (n opcode : ℕ) (payload : Bytes) (more : List Wrote)
    → (left : ℕ) × (n ≤ left)
      × (left < suc (suc n))
      × (write_frame_to (wholes (suc (suc n)) more) opcode payload
          ≡ record { out = write_frame opcode payload; ok = true; left = wholes left more })
unfolding write_frame_to write_one write_more write_frame
write_frame_to-wholes n opcode [] more = (
  suc n,
  omega arith,
  omega arith,
  ap (λ (b : Bytes). record { out = b; ok = true; left = wholes (suc n) more })
      (sym (append-nil (frame_header opcode 0))),
)
write_frame_to-wholes n opcode (b ∷ bs) more =
    let named : leb 1 (length (b ∷ bs)) ≡ true = ground arith in
    (n, omega arith, omega arith, rw named refl)

pub record ClientFrame : Type 0 where
  pub flags : ℕ
  pub opcode : ℕ
  pub mask : Bytes
  pub payload : Bytes

pub record IsClientFrame (limit : ℕ) (f : ClientFrame) : Type 0 where
  pub code : f.opcode < 16
  pub four : length f.mask ≡ 4
  pub mask_bytes : All IsByte f.mask
  pub payload_bytes : All IsByte f.payload
  pub allocatable : length f.payload ≤ limit
  pub short : length f.payload < 2 ^ 64

abbrev pub wire : List ClientFrame → Bytes
wire [] = []
wire (f ∷ fs) = client_frame f.flags f.opcode f.mask f.payload ++ wire fs

-- The bytes of the data frames up to the first close frame; but the answer to a ping stands among them.
unfoldable pub to_backend : List ClientFrame → Bytes
to_backend [] = []
to_backend (f ∷ fs) =
    let rest = to_backend fs in
    if leb f.opcode 2
    then f.payload ++ rest
    else if f.opcode == 8
    then []
    else if f.opcode == 9
    then write_frame 10 f.payload ++ rest
    else rest

-- What reaches the SSH backend of any sequence of masked client frames, final or not, each with the shortest form
-- of its length and a payload that Go can allocate, while the backend takes the writes whole: the payloads of the text,
-- binary and continuation frames before the first close frame, and, for each ping among them, a pong frame. Two writes
-- for each frame are enough.
pub ws_to_tcp-wire :
    (limit : ℕ) (frames : List ClientFrame) (fuel n : ℕ) (more : List Wrote)
    → All (IsClientFrame limit) frames
    → length frames < fuel
    → 2 * length frames ≤ n
    → ws_to_tcp fuel limit (wholes n more) (wire frames) ≡ ended (to_backend frames)
unfolding ws_to_tcp to_backend write_one
ws_to_tcp-wire limit [] zero n more ok f w = elim f [ ]
ws_to_tcp-wire limit [] (suc fuel) n more ok f w = unfold read_frame in refl
ws_to_tcp-wire limit (x ∷ xs) zero n more ok f w = elim f [ ]
ws_to_tcp-wire limit (x ∷ xs) (suc fuel) zero more ok f w = absurd (omega arith)
ws_to_tcp-wire limit (x ∷ xs) (suc fuel) (suc zero) more ok f w = absurd (omega arith)
ws_to_tcp-wire limit (x ∷ xs) (suc fuel) (suc (suc n)) more ok f w =
    let read =
      read_frame-client_frame limit x.flags x.opcode x.mask x.payload (wire xs) ok.0.code ok.0.four
        ok.0.mask_bytes ok.0.payload_bytes ok.0.allocatable ok.0.short in
    let (left, low, high, pong) = write_frame_to-wholes n 10 x.payload more in
    ground (
      arith,
      read,
      pong,
      ws_to_tcp-wire limit xs fuel left more ok.1,
      ws_to_tcp-wire limit xs fuel (suc n) more ok.1,
      ws_to_tcp-wire limit xs fuel (suc (suc n)) more ok.1,
    )

-- The client's side of the other direction: the payloads of the binary frames up to a close frame.
unfoldable pub read_all : ℕ → ℕ → Bytes → Bytes
read_all zero limit input = []
read_all (suc fuel) limit input = elim (read_frame limit input) [
  | failed ↦ []
  | panic ↦ []
  | frame opcode payload rest ↦ elim (opcode == 2) [
    | true ↦ payload ++ read_all fuel limit rest
    | false ↦ []
  ]
]

abbrev pub flatten : List Bytes → Bytes
flatten [] = []
flatten (c ∷ cs) = c ++ flatten cs

tcp_to_ws-wholes :
    (n : ℕ) (more : List Wrote)
    → tcp_to_ws (wholes (suc (suc n)) more) [] ≡ write_frame 8 (0x03 ∷ 0xE8 ∷ [])
unfolding tcp_to_ws write_close
tcp_to_ws-wholes n more =
    let (left, low, high, sent) = write_frame_to-wholes n 8 (0x03 ∷ 0xE8 ∷ []) more in
    ap (λ (s : Sent). s.out) sent

-- A client that reads frames gets every byte that the backend sent, in order, however the reads of at most 32768 bytes
-- cut it, if the writes to the client are whole (two for each read and two for the close frame are enough) and
-- the client can allocate 32768 bytes.
pub read_all-tcp_to_ws :
    (limit : ℕ) (chunks : List Bytes) (fuel n : ℕ) (more : List Wrote)
    → All (λ (c : Bytes). length c ≤ 32768) chunks
    → 32768 ≤ limit
    → length chunks < fuel
    → 2 * length chunks + 2 ≤ n
    → read_all fuel limit (tcp_to_ws (wholes n more) chunks) ≡ flatten chunks
unfolding read_all tcp_to_ws
read_all-tcp_to_ws limit chunks zero n more ok big f w = elim f [ ]
read_all-tcp_to_ws limit chunks (suc fuel) zero more ok big f w = absurd (omega arith)
read_all-tcp_to_ws limit chunks (suc fuel) (suc zero) more ok big f w = absurd (omega arith)
read_all-tcp_to_ws limit [] (suc fuel) (suc (suc n)) more ok big f w =
    let closing : Bytes = 0x03 ∷ 0xE8 ∷ [] in
    let read =
      read_frame-write_frame limit 8 closing [] (omega arith) (omega arith) (omega arith) in
    ground (
      arith,
      read,
      ap (read_frame limit) (append-nil (write_frame 8 closing)),
      tcp_to_ws-wholes n more,
    )
read_all-tcp_to_ws limit ([] ∷ cs) (suc fuel) (suc (suc n)) more ok big f w =
    read_all-tcp_to_ws limit cs (suc fuel) (suc (suc n)) more ok.1 big (omega arith) (omega arith)
read_all-tcp_to_ws limit ((b ∷ bs) ∷ cs) (suc fuel) (suc (suc n)) more ok big f w =
    let short : length (b ∷ bs) < 2 ^ 64 = omega arith in
    let (left, low, high, sent) = write_frame_to-wholes n 2 (b ∷ bs) more in
    let read =
      read_frame-write_frame limit 2 (b ∷ bs) (tcp_to_ws (wholes left more) cs) (omega arith)
        (omega arith) short in
    rw sent (ground (arith, read, read_all-tcp_to_ws limit cs fuel left more ok.1))
