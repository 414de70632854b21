-- ===== src/Tests/Config.antt =====
-- A configuration with two tunnels and two users, and the theorems on internal/config at it.
use slipgate.Prelude.{
  ◌↔◌, ℕ, ◌≡◌, ◌≢◌, ◌<◌, ◌≤◌, ◌⊎◌, inl, inr, refl, true, false, [], ◌∷◌, none, some, Bytes, codes,
  bytes_eq, All,
}
use Prim.Native.String.{String}
use slipgate.Config.{
  TunnelConfig, UserConfig, Config, transport_dnstt, transport_ssh, transport_external,
  backend_socks, backend_ssh, is_empty, one_of,
}
use slipgate.Config.Store.{find_key, get_tunnel, add_tunnel, tunnel_key, user_key}
use slipgate.Config.Store.Laws.{Unique}
use slipgate.Config.Validation.{
  validate, validate_tag, matches_tag, all_tag_bytes, validate_new_tunnel, check_tunnels,
  check_tunnel, contains, misses_domain, add_domain, check_mode, validate_transport,
  validate_backend,
}
use slipgate.Config.Validation.Checks.{IsWellFormed}
use slipgate.Config.Validation.Complete.{validate-eq-none_iff}
use slipgate.Config.Validation.NewTunnel.{IsNew, validate_new_tunnel-eq-none_iff}
use slipgate.Config.Validation.Agreement.{shared_domain-disagreement}
use slipgate.Config.Ports.{
  base_port, used_ports, is_used, next_available_port, next_available_port_total,
}
use slipgate.Config.Tags.{candidate, unique_tag, unique_tag_total}

abbrev pub tunnel : String → Bytes → Bytes → String → ℕ → TunnelConfig
tunnel tag transport backend domain port = record {
  tag = codes tag;
  transport = transport;
  backend = backend;
  domain = codes domain;
  port = port;
  enabled = true;
  dnstt = none;
  slipstream = none;
  vaydns = none;
  naive = none;
  stuntls = none;
}

abbrev pub first : TunnelConfig
first = tunnel "t1" transport_dnstt backend_socks "a.com" 5310

abbrev pub second : TunnelConfig
second = tunnel "s" transport_ssh backend_ssh "" 22

abbrev pub twin : TunnelConfig
twin = tunnel "t2" transport_dnstt backend_ssh "a.com" 5311

abbrev outer : TunnelConfig
outer = tunnel "x" transport_external backend_socks "a.com.x" 5311

abbrev pub user : String → String → UserConfig
user name password = record { username = codes name; password = codes password }

abbrev pub config : Config
config = record {
  path = codes "/etc/slipgate/config.json";
  listen = codes "0.0.0.0:53";
  tunnels = first ∷ second ∷ [];
  backends = [];
  users = user "ann" "secret" ∷ user "bob" "hidden" ∷ [];
  route = record { mode = codes "multi"; active = []; default = codes "t1" };
  warp = false;
}

pub users-Unique : Unique user_key config.users
unfolding find_key bytes_eq
users-Unique = (refl, (refl, tt))

pub tunnels-Unique : Unique tunnel_key config.tunnels
unfolding find_key bytes_eq
tunnels-Unique = (refl, (refl, tt))

validate-eq-none_iff_example : (validate config ≡ none) ↔ IsWellFormed config
validate-eq-none_iff_example = validate-eq-none_iff config

config_passes : validate config ≡ none
unfolding validate check_tunnels check_tunnel contains misses_domain add_domain check_mode
    validate_tag matches_tag all_tag_bytes validate_transport validate_backend is_empty one_of
    bytes_eq
config_passes = refl

validate_new_tunnel-eq-none_iff_example :
    (validate_new_tunnel config twin ≡ none) ↔ IsNew config twin
validate_new_tunnel-eq-none_iff_example = validate_new_tunnel-eq-none_iff config twin

shared_domain-disagreement_example :
    (validate_new_tunnel config twin ≡ none) × (validate (add_tunnel config twin) ≢ none)
unfolding validate_tag matches_tag all_tag_bytes get_tunnel find_key is_empty bytes_eq
shared_domain-disagreement_example =
    shared_domain-disagreement config first twin refl refl refl refl (λ e. cc)
      (inr (λ e. cc), (inl (λ e. cc), tt))

next_available_port_total_example :
    (p : ℕ) × (next_available_port config ≡ some p)
    × (base_port ≤ p)
    × All (λ (t : TunnelConfig). t.port ≢ p) config.tunnels
    × ((5310 < base_port) ⊎ ((is_used 5310 (used_ports config.tunnels) ≡ true) ⊎ (p ≤ 5310)))
next_available_port_total_example = next_available_port_total config 5310

unique_tag_total_example :
    (tag : Bytes) × (unique_tag config (codes "t1") ≡ some tag)
    × (get_tunnel config tag ≡ none)
    × ((tag ≡ codes "t1")
        ⊎ ((get_tunnel config (codes "t1") ≢ none)
            × ((k : ℕ) × (2 ≤ k) × (tag ≡ candidate (codes "t1") k))))
unique_tag_total_example = unique_tag_total config (codes "t1")
