-- ===== src/Tests/Proxy.antt =====
-- Clients of the SOCKS5 server and of the WebSocket relay, and the theorems on internal/proxy at them.
use mathlib.Core.Path.{subst}
use slipgate.Prelude.{
  ℕ, ◌+◌, ◌≡◌, ◌<◌, ◌≤◌, refl, sym, true, List, [], ◌∷◌, ◌++◌, none, some, arith, Bytes, codes,
  bytes_eq, length,
}
use slipgate.Prelude.Table.{text_eq, load}
use slipgate.Config.{is_empty}
use slipgate.Proxy.Socks5.{
  Server, new_server, has_auth, Dialler, Address, ipv4, connect, handle_conn,
}
use slipgate.Proxy.Socks5.Client.{greeting, login, request, handle_conn-login}
use slipgate.Proxy.Socks5.Auth.{Dials, HasLogin, handle_conn-HasLogin}
use slipgate.Proxy.WebSocket.{
  apply_mask, read_payload, read_mask, read_frame, frame_header, write_frame, whole, cut, write_one,
  write_more, write_frame_to, ended, ws_to_tcp, tcp_to_ws,
}
use slipgate.Proxy.WebSocket.Frames.{client_frame}
use slipgate.Proxy.WebSocket.Relay.{
  wholes, ClientFrame, IsClientFrame, wire, to_backend, read_all, flatten, ws_to_tcp-wire,
  read_all-tcp_to_ws,
}
use slipgate.Proxy.Payload.{target, payload_stream}
use slipgate.Proxy.Payload.Banner.{
  NoStart, payload_stream_sound, payload_stream_complete, payload_stream_missed,
}

abbrev server : Server
server = new_server (codes "127.0.0.1:1080") (codes "ann") (codes "pw")

abbrev open_server : Server
open_server = new_server (codes "127.0.0.1:1080") [] []

abbrev dial : Dialler
dial = λ address port. some (record { ip4 = some (10 ∷ 0 ∷ 0 ∷ 1 ∷ []); port = 4000 })

abbrev here : Address
here = ipv4 (127 ∷ 0 ∷ 0 ∷ 1 ∷ [])

abbrev session : Bytes
session =
    greeting (0 ∷ 2 ∷ []) ++ (login (codes "ann") (codes "pw") ++ (request here 22 ++ codes "hi"))

has_auth-server : has_auth server ≡ true
unfolding has_auth new_server is_empty
has_auth-server = refl

handle_conn-login_example :
    handle_conn server server dial session ≡ connect dial here 22 (codes "hi") (5 ∷ 2 ∷ 1 ∷ 0 ∷ [])
unfolding new_server is_empty load text_eq bytes_eq
handle_conn-login_example =
    handle_conn-login server dial (0 ∷ 2 ∷ []) (codes "ann") (codes "pw") here 22 (codes "hi")
      has_auth-server refl refl (omega arith)

ann_connects :
    handle_conn server server dial session ≡ connect dial here 22 (codes "hi") (5 ∷ 2 ∷ 1 ∷ 0 ∷ [])
unfolding new_server is_empty load text_eq bytes_eq
ann_connects =
    handle_conn-login server dial (0 ∷ 2 ∷ []) (codes "ann") (codes "pw") here 22 (codes "hi")
      has_auth-server refl refl (omega arith)

session-Dials : Dials (handle_conn server server dial session)
unfolding connect
session-Dials = subst Dials (sym ann_connects) tt

handle_conn-HasLogin_example : HasLogin server session
handle_conn-HasLogin_example =
    handle_conn-HasLogin server server dial session has_auth-server session-Dials

abbrev mask : Bytes
mask = 1 ∷ 2 ∷ 3 ∷ 255 ∷ []

-- A ping and a data frame that is not the last of its message.
abbrev frames : List ClientFrame
frames =
    record { flags = 8; opcode = 9; mask = mask; payload = 65 ∷ [] }
    ∷ record { flags = 0; opcode = 2; mask = mask; payload = 66 ∷ [] }
    ∷ []

frame-IsClientFrame :
    (flags opcode b : ℕ)
    → opcode < 16
    → b < 256
    → IsClientFrame 1000 (record { flags = flags; opcode = opcode; mask = mask; payload = b ∷ [] })
frame-IsClientFrame flags opcode b lt small = record {
  code = lt;
  four = refl;
  mask_bytes = (omega arith, (omega arith, (omega arith, (omega arith, tt))));
  payload_bytes = (small, tt);
  allocatable = omega arith;
  short = omega arith;
}

ws_to_tcp-wire_example :
    ws_to_tcp 3 1000 (wholes 4 (cut 1 ∷ [])) (wire frames) ≡ ended (to_backend frames)
ws_to_tcp-wire_example =
    ws_to_tcp-wire 1000 frames 3 4 (cut 1 ∷ [])
      (
        frame-IsClientFrame 8 9 65 (omega arith) (omega arith),
        (frame-IsClientFrame 0 2 66 (omega arith) (omega arith), tt),
      )
      (omega arith) (omega arith)

-- A backend that fails in the header of the pong, and takes the data.
partial_pong : ws_to_tcp 3 1000 (cut 1 ∷ whole ∷ []) (wire frames) ≡ ended (138 ∷ 66 ∷ [])
unfolding ws_to_tcp read_frame read_mask read_payload write_frame_to write_one frame_header
    client_frame apply_mask
partial_pong = refl

-- A client whose connection fails in the payload of the first frame gets no other byte.
failed_frame :
    tcp_to_ws (whole ∷ cut 1 ∷ whole ∷ []) ((65 ∷ 66 ∷ []) ∷ (67 ∷ []) ∷ []) ≡ 130 ∷ 2 ∷ 65 ∷ []
unfolding tcp_to_ws write_frame_to write_one write_more frame_header
failed_frame = refl

-- The ping is answered into the stream of the backend, in front of the data.
pong_reaches_backend : to_backend frames ≡ 138 ∷ 1 ∷ 65 ∷ 66 ∷ []
unfolding to_backend write_frame frame_header
pong_reaches_backend = refl

read_all-tcp_to_ws_example :
    read_all 3 40000 (tcp_to_ws (wholes 6 []) ((65 ∷ 66 ∷ []) ∷ (67 ∷ []) ∷ []))
    ≡ flatten ((65 ∷ 66 ∷ []) ∷ (67 ∷ []) ∷ [])
read_all-tcp_to_ws_example =
    read_all-tcp_to_ws 40000 ((65 ∷ 66 ∷ []) ∷ (67 ∷ []) ∷ []) 3 6 []
      (omega arith, (omega arith, tt)) (omega arith) (omega arith) (omega arith)

abbrev before : Bytes
before = codes "GET "

NoStart-before : NoStart before
NoStart-before = (
  (λ e. omega (arith, e)),
  ((λ e. omega (arith, e)), ((λ e. omega (arith, e)), ((λ e. omega (arith, e)), tt))),
)

banner_found : payload_stream (before ++ (target ++ codes "2.0")) ≡ some (target ++ codes "2.0")
banner_found = payload_stream_complete before (codes "2.0") NoStart-before (omega arith)

payload_stream_sound_example :
    (front : Bytes) × ((rest : Bytes) × ((target ++ codes "2.0" ≡ target ++ rest)
        × (before ++ (target ++ codes "2.0") ≡ front ++ (target ++ codes "2.0"))
        × (length front + 4 ≤ 8192)))
payload_stream_sound_example =
    payload_stream_sound (before ++ (target ++ codes "2.0")) (target ++ codes "2.0") banner_found

payload_stream_missed_example :
    payload_stream (before ++ (codes "S" ++ (target ++ codes "2"))) ≡ none
payload_stream_missed_example =
    payload_stream_missed before (codes "2") NoStart-before ((λ e. omega (arith, e)), tt)
      (omega arith)
