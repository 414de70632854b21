-- ===== src/Proxy/Socks5.antt =====
-- internal/proxy/socks5.go: the server's credentials and the SOCKS5 handshake of one connection.
pub mod Auth
pub mod Client
use slipgate.Prelude.{
  ℕ, ◌+◌, ◌/◌, ◌%◌, Bool, true, false, not, ◌&&◌, ◌||◌, List, [], ◌∷◌, ◌++◌, Option, none, some,
  ltb, ◌==◌, if◌then◌else◌, Bytes, bytes_eq, length, take, get_or, get_u16, u16_bytes,
}
use slipgate.Prelude.Table.{Table, text_eq, load}
use slipgate.Config.{is_empty}
use slipgate.Proxy.Stream.{Step, next, stop, Handler, ◌>>=◌, ◌>>◌, pure, quit, read_full, write}

abbrev pub Credentials : Type 0
Credentials = Table Bytes Bytes

pub record Server : Type 0 where
  pub listen_addr : Bytes
  pub credentials : Credentials

-- `NewServer`: no user is no authentication
unfoldable pub new_server : Bytes → Bytes → Bytes → Server
new_server addr user pass = record {
  listen_addr = addr;
  credentials = if is_empty user then [] else (user, pass) ∷ [];
}

-- `NewServerMulti`
abbrev pub new_server_multi : Bytes → Credentials → Server
new_server_multi addr creds = record { listen_addr = addr; credentials = creds }

-- `SetCredentials`
abbrev pub set_credentials : Server → Credentials → Server
set_credentials s creds = record s { credentials = creds }

-- `hasAuth`
unfoldable pub has_auth : Server → Bool
has_auth s = ltb 0 (length s.credentials)

-- `checkCredential`
unfoldable pub check_credential : Server → Bytes → Bytes → Bool
check_credential s user pass = elim (load user s.credentials) [
  | none ↦ false
  | some expected ↦ bytes_eq expected pass
]

-- A target in its three forms; `net.IP.String` and `net.JoinHostPort` are left to the dialler.
pub data Address : Type 0 where
  ipv4 domain ipv6 : Bytes → Address

-- the local address of a connection: its IPv4 form, if it has one, and its port
pub record LocalAddr : Type 0 where
  pub ip4 : Option Bytes
  pub port : ℕ

-- `net.DialTimeout`
abbrev pub Dialler : Type 0
Dialler = Address → ℕ → Option LocalAddr

-- if ip != nil { copy(reply[4:8], ip) }
unfoldable pub reply_ip : Option Bytes → Bytes
reply_ip none = 0 ∷ 0 ∷ 0 ∷ 0 ∷ []
reply_ip (some ip) = take 4 ip

-- the bytes of `sendReply`
unfoldable pub reply : ℕ → Option LocalAddr → Bytes
unfolding reply_ip
reply status none = 5 ∷ status ∷ 0 ∷ 1 ∷ 0 ∷ 0 ∷ 0 ∷ 0 ∷ 0 ∷ 0 ∷ []
reply status (some addr) = 5 ∷ status ∷ 0 ∷ 1 ∷ (reply_ip addr.ip4 ++ u16_bytes addr.port)

-- `authenticate`, which returns true or ends the connection
unfoldable pub authenticate : Server → Handler (Unit {0})
authenticate s = do
  head ← read_full 2
  if not (get_or head 0 0 == 1) then (write (1 ∷ 1 ∷ []) >> quit) else do
    user ← read_full (get_or head 1 0)
    plen ← read_full 1
    pass ← read_full (get_or plen 0 0)
    if check_credential s user pass then write (1 ∷ 0 ∷ []) else (write (1 ∷ 1 ∷ []) >> quit)

-- the greeting
unfoldable pub greet : Handler (Unit {0})
greet = do
  head ← read_full 2
  if not (get_or head 0 0 == 5) then quit else do methods ← read_full (get_or head 1 0); pure tt

-- The choice of the method. The credentials may be swapped between `hasAuth` and `checkCredential`.
unfoldable pub choose_method : Server → Server → Handler (Unit {0})
choose_method at_greeting at_check =
    if has_auth at_greeting
    then (write (5 ∷ 2 ∷ []) >> authenticate at_check)
    else write (5 ∷ 0 ∷ [])

-- the switch on `atyp`
unfoldable pub read_address : ℕ → Handler Address
read_address atyp =
    if atyp == 1
    then (do ip ← read_full 4; pure (ipv4 ip))
    else if atyp == 3
    then (do len ← read_full 1; name ← read_full (get_or len 0 0); pure (domain name))
    else if atyp == 4
    then (do ip ← read_full 16; pure (ipv6 ip))
    else (write (reply 8 none) >> quit)

-- the request, up to the dial
unfoldable pub read_request : Handler (Address × ℕ)
read_request = do
  head ← read_full 4
  if not (get_or head 0 0 == 5) || not (get_or head 2 0 == 0)
      then quit
      else if not (get_or head 1 0 == 1)
      then (write (reply 7 none) >> quit)
      else do
        address ← read_address (get_or head 3 0)
        port ← read_full 2
        pure (address, get_u16 port 0)

-- How a connection ends: closed in the handshake, refused by the target, or relayed. The bytes are
-- those written to the client; a relay also has the input that goes on to the target.
pub data Session : Type 0 where
  closed : Bytes → Session
  refused : Bytes → Address → ℕ → Session
  relayed : Bytes → Address → ℕ → Bytes → Session

unfoldable pub handshake : Server → Server → Handler (Address × ℕ)
handshake at_greeting at_check = do greet; choose_method at_greeting at_check; read_request

-- the dial
unfoldable pub connect : Dialler → Address → ℕ → Bytes → Bytes → Session
connect dial address port input output = elim (dial address port) [
  | none ↦ refused (output ++ reply 5 none) address port
  | some local ↦ relayed (output ++ reply 0 (some local)) address port input
]

unfoldable pub finish : Dialler → Step (Address × ℕ) → Session
finish dial (stop output) = closed output
finish dial (next (address, port) input output) = connect dial address port input output

-- `handleConn`
unfoldable pub handle_conn : Server → Server → Dialler → Bytes → Session
handle_conn at_greeting at_check dial input = finish dial (handshake at_greeting at_check input [])
