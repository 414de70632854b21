-- ===== src/Proxy/Socks5/Client.antt =====
-- `handleConn` of internal/proxy/socks5.go with a client that follows RFC 1928 and RFC 1929.
use slipgate.Prelude.{
  ℕ, ◌≡◌, ◌<◌, refl, ap, ◌∙◌, true, false, [], ◌∷◌, ◌++◌, append_assoc, some, arith, Bytes,
  bytes_eq_refl, length, get_u16, u16_bytes,
}
use slipgate.Prelude.Table.{text_eq, load}
use slipgate.Proxy.Stream.{next, read_full-append}
use slipgate.Proxy.Socks5.{
  Server, has_auth, check_credential, Address, ipv4, domain, ipv6, Dialler, authenticate, greet,
  choose_method, read_address, read_request, handshake, connect, finish, handle_conn,
}

-- what the client sends
abbrev pub greeting : Bytes → Bytes
greeting methods = 5 ∷ length methods ∷ methods

abbrev pub login : Bytes → Bytes → Bytes
login user pass = 1 ∷ length user ∷ (user ++ (length pass ∷ pass))

abbrev pub address_bytes : Address → Bytes
address_bytes (ipv4 ip) = 1 ∷ ip
address_bytes (domain name) = 3 ∷ length name ∷ name
address_bytes (ipv6 ip) = 4 ∷ ip

abbrev pub IsAddress : Address → Type 0
IsAddress (ipv4 ip) = length ip ≡ 4
IsAddress (domain name) = Unit {0}
IsAddress (ipv6 ip) = length ip ≡ 16

abbrev pub request : Address → ℕ → Bytes
request address port = 5 ∷ 1 ∷ 0 ∷ (address_bytes address ++ u16_bytes port)

greet-greeting :
    (methods rest output : Bytes) → greet (greeting methods ++ rest) output ≡ next tt rest output
unfolding greet
greet-greeting methods rest output = ground (
  arith,
  read_full-append (5 ∷ length methods ∷ []) (methods ++ rest) output,
  read_full-append methods rest output,
)

authenticate-login :
    (s : Server) (user pass rest output : Bytes)
    → load user s.credentials ≡ some pass
    → authenticate s (login user pass ++ rest) output ≡ next tt rest (output ++ (1 ∷ 0 ∷ []))
unfolding authenticate check_credential
authenticate-login s user pass rest output known = ground (
  arith,
  read_full-append (1 ∷ length user ∷ []) (user ++ (length pass ∷ (pass ++ rest))) output,
  read_full-append user (length pass ∷ (pass ++ rest)) output,
  read_full-append (length pass ∷ []) (pass ++ rest) output,
  read_full-append pass rest output,
  append_assoc user (length pass ∷ pass) rest,
  bytes_eq_refl pass,
)

read_address-address_bytes :
    (address : Address) (rest output : Bytes)
    → IsAddress address
    → (head : ℕ) × (tail : Bytes) × (address_bytes address ≡ head ∷ tail)
      × (read_address head (tail ++ rest) output ≡ next address rest output)
unfolding read_address
read_address-address_bytes (ipv4 ip) rest output ok =
    (1, ip, refl, ground (arith, ok, read_full-append ip rest output))
read_address-address_bytes (domain name) rest output ok = (
  3,
  length name ∷ name,
  refl,
  ground (
    arith,
    read_full-append (length name ∷ []) (name ++ rest) output,
    read_full-append name rest output,
  ),
)
read_address-address_bytes (ipv6 ip) rest output ok =
    (4, ip, refl, ground (arith, ok, read_full-append ip rest output))

read_request-request :
    (address : Address) (port : ℕ) (rest output : Bytes)
    → IsAddress address
    → port < 65536
    → read_request (request address port ++ rest) output ≡ next (address, port) rest output
unfolding read_request
read_request-request address port rest output ok fits =
    let (head, tail, e, r) =
      read_address-address_bytes address (u16_bytes port ++ rest) output ok in
    let input : request address port ++ rest
        ≡ 5 ∷ 1 ∷ 0 ∷ head ∷ (tail ++ (u16_bytes port ++ rest)) =
      ap (λ (b : Bytes). 5 ∷ 1 ∷ 0 ∷ ((b ++ u16_bytes port) ++ rest)) e
      ∙ ap (λ (b : Bytes). 5 ∷ 1 ∷ 0 ∷ head ∷ b) (append_assoc tail (u16_bytes port) rest) in
    let word : get_u16 (u16_bytes port) 0 ≡ port = omega arith in
    ap (λ (b : Bytes). read_request b output) input
    ∙ ground (
      arith,
      read_full-append (5 ∷ 1 ∷ 0 ∷ head ∷ []) (tail ++ (u16_bytes port ++ rest)) output,
      r,
      read_full-append (u16_bytes port) rest output,
      word,
    )

-- A client that sends the methods it knows, its user and password where the server wants them, and a CONNECT request for
-- an IPv4 address, a name or an IPv6 address, has exactly that target dialled; it has been answered the username
-- method and success before, and what it sends afterwards goes to the target.
pub handle_conn-login :
    (s : Server) (dial : Dialler) (methods user pass : Bytes) (address : Address) (port : ℕ)
    (rest : Bytes)
    → has_auth s ≡ true
    → load user s.credentials ≡ some pass
    → IsAddress address
    → port < 65536
    → handle_conn s s dial (greeting methods ++ (login user pass ++ (request address port ++ rest)))
      ≡ connect dial address port rest (5 ∷ 2 ∷ 1 ∷ 0 ∷ [])
unfolding handle_conn finish handshake choose_method
handle_conn-login s dial methods user pass address port rest auth known ok fits =
    let after = request address port ++ rest in
    ground (
      arith,
      greet-greeting methods (login user pass ++ after) [],
      authenticate-login s user pass after (5 ∷ 2 ∷ []) known,
      read_request-request address port rest (5 ∷ 2 ∷ 1 ∷ 0 ∷ []) ok fits,
    )

-- Without credentials on the server, the client is answered the method of no authentication.
pub handle_conn-open :
    (s t : Server) (dial : Dialler) (methods : Bytes) (address : Address) (port : ℕ) (rest : Bytes)
    → has_auth s ≡ false
    → IsAddress address
    → port < 65536
    → handle_conn s t dial (greeting methods ++ (request address port ++ rest))
      ≡ connect dial address port rest (5 ∷ 0 ∷ [])
unfolding handle_conn finish handshake choose_method
handle_conn-open s t dial methods address port rest auth ok fits = ground (
  arith,
  greet-greeting methods (request address port ++ rest) [],
  read_request-request address port rest (5 ∷ 0 ∷ []) ok fits,
)
