-- ===== src/Handlers/Add/Routed.antt =====
-- internal/handlers/tunnel_add.go keeps the routing of the configuration in memory consistent.
use mathlib.Core.Path.{subst}
use slipgate.Prelude.{
  ◌≡◌, refl, true, false, List, [], ◌∷◌, ◌++◌, none, Bytes, codes, Bool-cases, Option-cases, inl,
  inr, is_some, bytes_eq, bytes_eq_refl,
}
use slipgate.Config.{TunnelConfig, VayDnsConfig, Config, is_empty, one_of}
use slipgate.Config.Store.{find_key, tunnel_key, get_tunnel, add_tunnel}
use slipgate.Config.Store.Laws.{find_key-append, Unique-append}
use slipgate.Config.Validation.{Invalid, validate_new_tunnel}
use slipgate.Config.Validation.NewTunnel.{validate_new_tunnel-eq-none_iff}
use slipgate.Host.{
  say, info, World, Env, Action, gets, get_config, set_config, raise, on_option, ◌>>=◌,
}
use slipgate.Host.Keeps.{Keeps, Keeps-bind}
use slipgate.Host.Leads.{Leads, Leads-bind, Leads-bind-Returns, Leads-then, set_config-Leads}
use slipgate.Host.Frame.{say-InMemory, InMemory, set_config-InMemory}
use slipgate.Actions.{Args, fail_because}
use slipgate.Keys.{Crypto}
use slipgate.Keys.Frame.{keys_rules}
use slipgate.Network.Frame.{network_rules}
use slipgate.Transport.Frame.{random_decoy_url-InMemory, create_service-InMemory}
use slipgate.Handlers.Packages.{
  Packages, IsQuiet, ensure_installed-InMemory, generate_self_signed-InMemory,
}
use slipgate.Handlers.Invariant.{handler_rules}
use slipgate.Handlers.Routed.{IsRouted, active_ok, found-active_ok, found_at}
use slipgate.Handlers.Add.{
  ensure_transport, copy_file, share_keys, setup_keys, ask_mtu, arg_or, setup_dnstt,
  setup_slipstream, ask_vaydns, setup_vaydns, setup_stuntls, setup_external, setup_naive,
  setup_transport, enter_multi, prepare_dns, register_route, announce, start_tunnel, store_tunnel,
  build_tunnel, add_checked, assign_port, add_single_tunnel, insert_tunnel, to_multi, bare_tunnel,
}
use slipgate.Handlers.Add.Tagged.{HasTagOf, setup_transport-HasTagOf}

-- a consistent routing with no tunnel of the tag
pub record IsFresh (tag : Bytes) (c : Config) : Type 0 where
  pub routed : IsRouted c
  pub fresh : get_tunnel c tag ≡ none

added-active :
    (t : TunnelConfig) (ts : List TunnelConfig)
    → find_key tunnel_key t.tag ts ≡ none
    → is_some (find_key tunnel_key t.tag (ts ++ (t ∷ []))) ≡ true
added-active t ts h = rw (find_key-append tunnel_key t.tag ts t, h, bytes_eq_refl t.tag) refl

old-active :
    (t : TunnelConfig) (ts : List TunnelConfig) (a : Bytes)
    → active_ok ts a ≡ true
    → is_empty a ≡ false
    → is_some (find_key tunnel_key a (ts ++ (t ∷ []))) ≡ true
unfolding active_ok
old-active t [] a h n = cc
old-active t (e ∷ es) a h n =
    rw (find_key-append tunnel_key a (e ∷ es) t, found_at e es a h) (found_at e es a h)

insert_tunnel-IsRouted :
    (t : TunnelConfig) (c : Config) → IsFresh t.tag c → IsRouted (insert_tunnel t c)
unfolding insert_tunnel add_tunnel get_tunnel
insert_tunnel-IsRouted t c h =
    let ts = c.tunnels in
    let distinct = Unique-append tunnel_key t ts h.fresh h.routed.distinct in
    elim (Bool-cases (is_empty c.route.active)) [
      | inl e ↦ rw e (record {
        distinct = distinct;
        active = found-active_ok (ts ++ (t ∷ [])) t.tag (added-active t ts h.fresh);
        mode = h.routed.mode;
      })
      | inr e ↦ rw e (record {
        distinct = distinct;
        active =
            found-active_ok (ts ++ (t ∷ [])) c.route.active
              (old-active t ts c.route.active h.routed.active e);
        mode = h.routed.mode;
      })
    ]

to_multi-IsRouted : (c : Config) → IsRouted c → IsRouted (to_multi c)
unfolding to_multi one_of bytes_eq
to_multi-IsRouted c h = record { distinct = h.distinct; active = h.active; mode = refl }

module _ ⦃env : Env⦄ {P : Config → Type 0} (crypto : Crypto) (message_of : Invalid → Bytes)
    (packages : Packages) (quiet : IsQuiet packages) where
  ensure_transport-InMemory :
      (transport : Bytes)
      → Keeps (InMemory P) (ensure_transport crypto message_of packages transport)
  unfolding ensure_transport
  ensure_transport-InMemory transport =
      let install = ensure_installed-InMemory {P = P} packages quiet in
      search (handler_rules, install)

  copy_file-InMemory : (s t : Bytes) → Keeps (InMemory P) (copy_file crypto message_of packages s t)
  unfolding copy_file
  copy_file-InMemory s t = search handler_rules

  share_keys-InMemory :
      (a b c : Bytes) → Keeps (InMemory P) (share_keys crypto message_of packages a b c)
  unfolding share_keys
  share_keys-InMemory a b c = let copy = copy_file-InMemory in search (handler_rules, copy) depth 8

  setup_keys-InMemory :
      (args : Args) (a b c : Bytes)
      → Keeps (InMemory P) (setup_keys crypto message_of packages args a b c)
  unfolding setup_keys
  setup_keys-InMemory args a b c =
      let share = share_keys-InMemory in search (handler_rules, keys_rules, share) depth 9

  ask_mtu-InMemory : Keeps (InMemory P) (ask_mtu crypto message_of packages)
  unfolding ask_mtu
  ask_mtu-InMemory = search handler_rules

  arg_or-InMemory :
      (args : Args) (key : Bytes) (m : Action Bytes)
      → Keeps (InMemory P) m
      → Keeps (InMemory P) (arg_or crypto message_of packages args key m)
  unfolding arg_or
  arg_or-InMemory args key m k = search handler_rules

  setup_dnstt-InMemory :
      (args : Args) (shared : Bytes) (t : TunnelConfig)
      → Keeps (InMemory P) (setup_dnstt crypto message_of packages args shared t)
  unfolding setup_dnstt
  setup_dnstt-InMemory args shared t =
      let keys = setup_keys-InMemory in search (handler_rules, keys, ask_mtu-InMemory)

  setup_slipstream-InMemory :
      (t : TunnelConfig) → Keeps (InMemory P) (setup_slipstream crypto message_of packages t)
  unfolding setup_slipstream
  setup_slipstream-InMemory t =
      let certs = generate_self_signed-InMemory {P = P} packages quiet in
      search (handler_rules, certs)

  ask_vaydns-InMemory :
      (args : Args) (v : VayDnsConfig)
      → Keeps (InMemory P) (ask_vaydns crypto message_of packages args v)
  unfolding ask_vaydns
  ask_vaydns-InMemory args v = let arg = arg_or-InMemory in search (handler_rules, arg) depth 8

  setup_vaydns-InMemory :
      (args : Args) (shared : Bytes) (t : TunnelConfig)
      → Keeps (InMemory P) (setup_vaydns crypto message_of packages args shared t)
  unfolding setup_vaydns
  setup_vaydns-InMemory args shared t =
      let keys = setup_keys-InMemory in
      let arg = arg_or-InMemory in
      let rest = ask_vaydns-InMemory in
      search (handler_rules, keys, arg, ask_mtu-InMemory, rest) depth 9

  setup_stuntls-InMemory :
      (t : TunnelConfig) → Keeps (InMemory P) (setup_stuntls crypto message_of packages t)
  unfolding setup_stuntls
  setup_stuntls-InMemory t =
      let certs = generate_self_signed-InMemory {P = P} packages quiet in
      search (handler_rules, certs) depth 8

  setup_external-InMemory :
      (args : Args) (t : TunnelConfig)
      → Keeps (InMemory P) (setup_external crypto message_of packages args t)
  unfolding setup_external
  setup_external-InMemory args t = let arg = arg_or-InMemory in search (handler_rules, arg) depth 8

  setup_naive-InMemory :
      (args : Args) (t : TunnelConfig)
      → Keeps (InMemory P) (setup_naive crypto message_of packages args t)
  unfolding setup_naive
  setup_naive-InMemory args t =
      let arg = arg_or-InMemory in search (handler_rules, random_decoy_url-InMemory, arg) depth 8

  setup_transport-InMemory :
      (args : Args) (shared : Bytes) (t : TunnelConfig)
      → Keeps (InMemory P) (setup_transport crypto message_of packages args shared t)
  unfolding setup_transport
  setup_transport-InMemory args shared t =
      let dnstt = setup_dnstt-InMemory in
      let slipstream = setup_slipstream-InMemory in
      let vaydns = setup_vaydns-InMemory in
      let stuntls = setup_stuntls-InMemory in
      let external = setup_external-InMemory in
      let naive = setup_naive-InMemory in
      search (handler_rules, dnstt, slipstream, vaydns, stuntls, external, naive) depth 10

  prepare_dns-InMemory :
      (t : TunnelConfig) → Keeps (InMemory P) (prepare_dns crypto message_of packages t)
  unfolding prepare_dns
  prepare_dns-InMemory t = search (handler_rules, network_rules) depth 8

  register_route-InMemory :
      (t : TunnelConfig) → Keeps (InMemory P) (register_route crypto message_of packages t)
  unfolding register_route
  register_route-InMemory t = search handler_rules

  announce-InMemory :
      (t : TunnelConfig) → Keeps (InMemory P) (announce crypto message_of packages t)
  unfolding announce
  announce-InMemory t = search handler_rules

  start_tunnel-InMemory :
      (t : TunnelConfig) → Keeps (InMemory P) (start_tunnel crypto message_of packages t)
  unfolding start_tunnel
  start_tunnel-InMemory t =
      let dns = prepare_dns-InMemory in
      let route = register_route-InMemory in
      let end = announce-InMemory in
      search (handler_rules, create_service-InMemory, dns, route, end) depth 10

module _ ⦃env : Env⦄ (crypto : Crypto) (message_of : Invalid → Bytes) (packages : Packages)
    (quiet : IsQuiet packages) where
  enter_multi-IsRouted :
      (t : TunnelConfig) → Keeps (InMemory IsRouted) (enter_multi crypto message_of packages t)
  unfolding enter_multi
  enter_multi-IsRouted t = search (handler_rules, set_config-InMemory, to_multi-IsRouted)

  store_tunnel-Leads :
      (t : TunnelConfig)
      → Leads
          (InMemory (IsFresh t.tag))
          (InMemory IsRouted)
          (store_tunnel crypto message_of packages t)
  unfolding store_tunnel
  store_tunnel-Leads t =
      Leads-then (set_config (insert_tunnel t)) _
        (set_config-Leads (IsFresh t.tag) IsRouted (insert_tunnel t) (insert_tunnel-IsRouted t))
        (λ _. let multi = enter_multi-IsRouted in search (handler_rules, multi))

  build_tunnel-Leads :
      (args : Args) (shared : Bytes) (t : TunnelConfig)
      → Leads
          (InMemory (IsFresh t.tag))
          (InMemory IsRouted)
          (build_tunnel crypto message_of packages args shared t)
  unfolding build_tunnel
  build_tunnel-Leads args shared t =
      let weaken : (w : World) → InMemory (IsFresh t.tag) w → InMemory IsRouted w =
        λ w h. record { holds = h.holds.routed } in
      Leads-bind _ _ (search handler_rules) weaken (λ _.
        Leads-bind-Returns (setup_transport crypto message_of packages args shared t) _ (HasTagOf t)
          (setup_transport-InMemory crypto message_of packages quiet args shared t)
          (setup_transport-HasTagOf crypto message_of packages args shared t) weaken
          (λ whole same.
            Leads-then (store_tunnel crypto message_of packages whole) _
              (subst
                (λ tag.
                  Leads (InMemory (IsFresh tag)) (InMemory IsRouted)
                    (store_tunnel crypto message_of packages whole))
                same (store_tunnel-Leads whole))
              (λ _. start_tunnel-InMemory crypto message_of packages quiet whole)))

  add_checked-IsRouted :
      (args : Args) (shared : Bytes) (f : Config → TunnelConfig)
      → Keeps
          (InMemory IsRouted)
          (get_config >>= λ c. add_checked crypto message_of packages args shared (f c) c)
  unfolding add_checked gets ◌>>=◌ on_option fail_because raise
  add_checked-IsRouted args shared f = record {
    at = λ w h. elim (Option-cases (validate_new_tunnel w.config (f w.config))) [
      | inl valid ↦
          let new = (validate_new_tunnel-eq-none_iff w.config (f w.config)).0 valid in
          let fresh : InMemory (IsFresh (f w.config).tag) w = record {
            holds = record { routed = h.holds; fresh = new.fresh };
          } in
          rw (add_checked, valid) ((build_tunnel-Leads args shared (f w.config)).at w fresh)
      | inr (e, invalid) ↦ rw (add_checked, invalid) h
    ];
  }

  pub add_single_tunnel-IsRouted :
      (args : Args) (transport backend tag domain shared : Bytes)
      → Keeps
          (InMemory IsRouted)
          (add_single_tunnel crypto message_of packages args transport backend tag domain shared)
  unfolding add_single_tunnel
  add_single_tunnel-IsRouted args transport backend tag domain shared =
      let new = λ (c : Config).
        assign_port crypto message_of packages (bare_tunnel tag transport backend domain 0) c in
      let rest = add_checked-IsRouted args shared new in
      Keeps-bind (say info (codes "Checking transport binary...")) _
        (say-InMemory info (codes "Checking transport binary..."))
        (λ _.
          Keeps-bind (ensure_transport crypto message_of packages transport) _
            (ensure_transport-InMemory {P = IsRouted} crypto message_of packages quiet transport)
            (λ _. rest))
