-- ===== src/Handlers/Routed.antt =====
-- The state of the routing that the handlers of internal/handlers keep, and the changes of the
-- configuration that keep it.
use slipgate.Prelude.{
  ◌≡◌, refl, ap, ◌∙◌, Bool, true, false, List, [], ◌∷◌, arith, Bytes, bytes_eq, bytes_eq_iff,
  bytes_eq_refl, is_some, Bool-cases, inl, inr,
}
use slipgate.Config.{TunnelConfig, Config, is_empty, one_of}
use slipgate.Config.Store.{find_key, remove_key, tunnel_key, get_tunnel, remove_tunnel}
use slipgate.Config.Store.Laws.{Unique, find_key-remove_key, Unique-remove_key}
use slipgate.Handlers.Router.{modes, set_active, set_mode}
use slipgate.Handlers.Remove.{drop_tunnel, first_tag, to_single}

-- is the active tag that of a tunnel, or empty when there is none?
unfoldable pub active_ok : List TunnelConfig → Bytes → Bool
active_ok [] active = is_empty active
active_ok (t ∷ ts) active = is_some (find_key tunnel_key active (t ∷ ts))

-- Tags are distinct, the active tunnel exists if there is any, and the mode is one of the two.
pub record IsRouted (c : Config) : Type 0 where
  pub distinct : Unique tunnel_key c.tunnels
  pub active : active_ok c.tunnels c.route.active ≡ true
  pub mode : one_of c.route.mode modes ≡ true

pub found-active_ok :
    (ts : List TunnelConfig) (a : Bytes)
    → is_some (find_key tunnel_key a ts) ≡ true
    → active_ok ts a ≡ true
unfolding active_ok find_key
found-active_ok [] a h = cc
found-active_ok (t ∷ ts) a h = h

pub named-active_ok :
    (c : Config) (tag : Bytes) → is_some (get_tunnel c tag) ≡ true → active_ok c.tunnels tag ≡ true
unfolding get_tunnel
named-active_ok c tag h = found-active_ok c.tunnels tag h

pub found_at :
    (t : TunnelConfig) (ts : List TunnelConfig) (a : Bytes)
    → active_ok (t ∷ ts) a ≡ true
    → is_some (find_key tunnel_key a (t ∷ ts)) ≡ true
unfolding active_ok
found_at t ts a h = h

first-active_ok : (ts : List TunnelConfig) → active_ok ts (first_tag ts) ≡ true
unfolding active_ok find_key is_empty
first-active_ok [] = refl
first-active_ok (t ∷ ts) = rw (bytes_eq_refl t.tag) refl

other-active_ok :
    (ts : List TunnelConfig) (tag a : Bytes)
    → Unique tunnel_key ts
    → bytes_eq tag a ≡ false
    → active_ok ts a ≡ true
    → active_ok (remove_key tunnel_key tag ts).0 a ≡ true
unfolding remove_key
other-active_ok [] tag a u other h = h
other-active_ok (t ∷ ts) tag a u other h =
    let rest = (remove_key tunnel_key tag (t ∷ ts)).0 in
    let same : find_key tunnel_key a rest ≡ find_key tunnel_key a (t ∷ ts) =
      rw (find_key-remove_key tunnel_key tag a (t ∷ ts) u, other) refl in
    found-active_ok rest a (ap is_some same ∙ found_at t ts a h)

pub drop_tunnel-IsRouted : (tag : Bytes) (c : Config) → IsRouted c → IsRouted (drop_tunnel tag c)
unfolding drop_tunnel remove_tunnel
drop_tunnel-IsRouted tag c routed =
    let rest = (remove_key tunnel_key tag c.tunnels).0 in
    let distinct : Unique tunnel_key rest =
      Unique-remove_key tunnel_key tag c.tunnels routed.distinct in
    elim (Bool-cases (bytes_eq c.route.active tag)) [
      | inl was ↦
          rw was (record { distinct = distinct; active = first-active_ok rest; mode = routed.mode })
      | inr other ↦ rw other (record {
        distinct = distinct;
        active =
            other-active_ok c.tunnels tag c.route.active routed.distinct
              (ground (arith, bytes_eq_iff tag c.route.active, bytes_eq_iff c.route.active tag))
              routed.active;
        mode = routed.mode;
      })
    ]

pub to_single-IsRouted : (c : Config) → IsRouted c → IsRouted (to_single c)
unfolding one_of bytes_eq
to_single-IsRouted c routed = record {
  distinct = routed.distinct;
  active = routed.active;
  mode = refl;
}

pub set_mode-IsRouted :
    (mode : Bytes)
    → one_of mode modes ≡ true
    → (c : Config) → IsRouted c
    → IsRouted (set_mode mode c)
unfolding set_mode
set_mode-IsRouted mode valid c h = record { distinct = h.distinct; active = h.active; mode = valid }

-- with a tag that names a tunnel
pub record IsNamed (tag : Bytes) (c : Config) : Type 0 where
  pub routed : IsRouted c
  pub named : is_some (get_tunnel c tag) ≡ true

pub set_active-IsNamed : (tag : Bytes) (c : Config) → IsNamed tag c → IsNamed tag (set_active tag c)
unfolding set_active get_tunnel
set_active-IsNamed tag c h = record {
  routed = record {
    distinct = h.routed.distinct;
    active = named-active_ok c tag h.named;
    mode = h.routed.mode;
  };
  named = h.named;
}
