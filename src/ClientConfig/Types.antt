-- ===== src/ClientConfig/Types.antt =====
-- `GetTunnelType` of internal/clientcfg/fields.go on the transports and backends of the validation.
use slipgate.Prelude.{
  ◌≡◌, ◌↔◌, inl, inr, refl, ap, ◌∙◌, Bool, true, false, not, ◌&&◌, ◌||◌, List, [], ◌∷◌, none, arith,
  if◌then◌else◌, Bytes, bytes_eq, bytes_eq_iff, Bool-cases,
}
use slipgate.Prelude.Table.{text_eq, load}
use slipgate.Config.{
  one_of, transport_dnstt, transport_slipstream, transport_vaydns, transport_naive,
  transport_stuntls, transport_ssh, transport_socks, backend_socks, backend_ssh,
}
use slipgate.Config.Validation.{validate_transport, validate_backend}
use slipgate.ClientConfig.Fields.{client_mode_dnstt, client_mode_noizdns, get_tunnel_type, unknown}

-- SSH transports that end in the SOCKS backend, and the SOCKS transport that ends in SSH.
abbrev pub has_no_type : Bytes → Bytes → Bool
has_no_type transport backend =
    (bytes_eq backend backend_socks && one_of transport (transport_stuntls ∷ transport_ssh ∷ []))
    || (bytes_eq backend backend_ssh && bytes_eq transport transport_socks)

all : (Bytes → Bool) → List Bytes → Bool
all p [] = true
all p (x ∷ xs) = p x && all p xs

one_of-all :
    (p : Bytes → Bool) (s : Bytes) (xs : List Bytes)
    → one_of s xs ≡ true
    → all p xs ≡ true
    → p s ≡ true
unfolding one_of all
one_of-all p s [] h k = cc
one_of-all p s (x ∷ xs) h k = elim (Bool-cases (bytes_eq s x)) [
  | inl e ↦ ap p ((bytes_eq_iff s x).0 e) ∙ ground (arith, k)
  | inr e ↦ one_of-all p s xs (ground (arith, h, e)) (ground (arith, k))
]

abbrev transports : List Bytes
transports =
    transport_dnstt ∷ transport_slipstream ∷ transport_vaydns ∷ transport_naive ∷ transport_stuntls
    ∷ transport_ssh ∷ transport_socks ∷ []

abbrev modes : List Bytes
modes = client_mode_dnstt ∷ client_mode_noizdns ∷ []

abbrev same : Bool → Bool → Bool
same a b = if a then b else not b

abbrev agrees : Bytes → Bytes → Bytes → Bool
agrees transport backend mode =
    same (bytes_eq (get_tunnel_type transport backend mode) unknown) (has_no_type transport backend)

all-agree :
    all (λ t. all (λ b. all (agrees t b) modes) (backend_socks ∷ backend_ssh ∷ [])) transports
    ≡ true
unfolding all get_tunnel_type load one_of bytes_eq
all-agree = refl

transport_one_of : (s : Bytes) → validate_transport s ≡ none → one_of s transports ≡ true
unfolding validate_transport
transport_one_of s h = ground (arith, h)

backend_one_of :
    (s : Bytes) → validate_backend s ≡ none → one_of s (backend_socks ∷ backend_ssh ∷ []) ≡ true
unfolding validate_backend
backend_one_of s h = ground (arith, h)

-- Of the transports and backends that `Validate` knows, and in both client modes, exactly those that combine an SSH transport with
-- the SOCKS backend, or the SOCKS transport with the SSH backend, have no tunnel type.
pub get_tunnel_type-unknown :
    (transport backend mode : Bytes)
    → validate_transport transport ≡ none
    → validate_backend backend ≡ none
    → one_of mode (client_mode_dnstt ∷ client_mode_noizdns ∷ []) ≡ true
    → (get_tunnel_type transport backend mode ≡ unknown) ↔ (has_no_type transport backend ≡ true)
get_tunnel_type-unknown transport backend mode t b m =
    let agree : agrees transport backend mode ≡ true =
      one_of-all (agrees transport backend) mode modes m (
        one_of-all (λ b. all (agrees transport b) modes) backend (backend_socks ∷ backend_ssh ∷ [])
          (backend_one_of backend b)
          (one_of-all (λ t. all (λ b. all (agrees t b) modes) (backend_socks ∷ backend_ssh ∷ []))
            transport transports (transport_one_of transport t) all-agree)) in
    agree_iff (get_tunnel_type transport backend mode) (has_no_type transport backend) agree
  where
    agree_iff :
        (type : Bytes) (b : Bool)
        → same (bytes_eq type unknown) b ≡ true
        → (type ≡ unknown) ↔ (b ≡ true)
    agree_iff type true h = ((λ e. refl), λ e. (bytes_eq_iff type unknown).0 (ground (arith, h)))
    agree_iff type false h = ((λ e. cc (h, (bytes_eq_iff type unknown).1 e)), λ e. cc e)
