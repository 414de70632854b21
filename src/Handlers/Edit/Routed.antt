-- ===== src/Handlers/Edit/Routed.antt =====
-- What internal/handlers/tunnel_edit.go writes to the configuration keeps the state of the routing.
use slipgate.Prelude.{
  ◌≡◌, refl, sym, ap, ◌∙◌, List, [], ◌∷◌, Bytes, bytes_eq, bytes_eq_iff, is_some, none, Bool-cases,
  inl, inr, true, false, arith, if◌then◌else◌,
}
use slipgate.Config.{TunnelConfig, Config}
use slipgate.Config.Store.{find_key, tunnel_key, get_tunnel}
use slipgate.Config.Store.Laws.{Unique}
use slipgate.Handlers.Routed.{IsRouted, active_ok, found-active_ok, found_at}
use slipgate.Handlers.Edit.{put_first, put_tunnel, rename_routes}

-- With the tag that was there, the same tags are there.
find_key-put_first :
    (tag : Bytes) (t : TunnelConfig) (k : Bytes) (ts : List TunnelConfig)
    → t.tag ≡ tag
    → is_some (find_key tunnel_key k (put_first tag t ts)) ≡ is_some (find_key tunnel_key k ts)
unfolding find_key put_first
find_key-put_first tag t k [] e = refl
find_key-put_first tag t k (x ∷ xs) e =
    ground (arith, e, find_key-put_first tag t k xs e, bytes_eq_iff x.tag tag)

Unique-put_first :
    (tag : Bytes) (t : TunnelConfig) (ts : List TunnelConfig)
    → t.tag ≡ tag
    → Unique tunnel_key ts
    → Unique tunnel_key (put_first tag t ts)
unfolding put_first
Unique-put_first tag t [] e u = tt
Unique-put_first tag t (x ∷ xs) e (fresh, u) = elim (Bool-cases (bytes_eq x.tag tag)) [
  | inl here ↦
      let same : x.tag ≡ t.tag = ground (arith, e, bytes_eq_iff x.tag tag) in
      rw here (ap (λ (k : Bytes). find_key tunnel_key k xs) (sym same) ∙ fresh, u)
  | inr other ↦
      rw other
        (ground (arith, find_key-put_first tag t x.tag xs e, fresh), Unique-put_first tag t xs e u)
]

active_ok-put_first :
    (tag : Bytes) (t : TunnelConfig) (active : Bytes) (ts : List TunnelConfig)
    → t.tag ≡ tag
    → active_ok ts active ≡ true
    → active_ok (put_first tag t ts) active ≡ true
unfolding put_first
active_ok-put_first tag t active [] e h = h
active_ok-put_first tag t active (x ∷ xs) e h =
    found-active_ok (put_first tag t (x ∷ xs)) active
      (find_key-put_first tag t active (x ∷ xs) e ∙ found_at x xs active h)

pub put_tunnel-IsRouted :
    (tag : Bytes) (t : TunnelConfig)
    → t.tag ≡ tag
    → (c : Config) → IsRouted c
    → IsRouted (put_tunnel tag t c)
unfolding put_tunnel
put_tunnel-IsRouted tag t e c h = record {
  distinct = Unique-put_first tag t c.tunnels e h.distinct;
  active = active_ok-put_first tag t c.route.active c.tunnels e h.active;
  mode = h.mode;
}

-- A tunnel of `tag` is there and none of `new_tag`.
pub record IsRenamable (tag new_tag : Bytes) (c : Config) : Type 0 where
  pub routed : IsRouted c
  pub there : is_some (get_tunnel c tag) ≡ true
  pub fresh : is_some (get_tunnel c new_tag) ≡ false

pub put_tunnel-IsRenamable :
    (tag new_tag : Bytes) (t : TunnelConfig)
    → t.tag ≡ tag
    → (c : Config) → IsRenamable tag new_tag c
    → IsRenamable tag new_tag (put_tunnel tag t c)
unfolding put_tunnel get_tunnel
put_tunnel-IsRenamable tag new_tag t e c h = record {
  routed = unfold put_tunnel in put_tunnel-IsRouted tag t e c h.routed;
  there = find_key-put_first tag t tag c.tunnels e ∙ h.there;
  fresh = find_key-put_first tag t new_tag c.tunnels e ∙ h.fresh;
}

module _ (tag new_tag : Bytes) (t : TunnelConfig) (is_new : t.tag ≡ new_tag) where
  -- the tags after the renaming
  absent-put_first :
      (k : Bytes) (ts : List TunnelConfig)
      → bytes_eq new_tag k ≡ false
      → find_key tunnel_key k ts ≡ none
      → find_key tunnel_key k (put_first tag t ts) ≡ none
  unfolding find_key put_first
  absent-put_first k [] other h = refl
  absent-put_first k (x ∷ xs) other h = ground (arith, is_new, absent-put_first k xs other)

  Unique-renamed :
      (ts : List TunnelConfig)
      → Unique tunnel_key ts
      → is_some (find_key tunnel_key new_tag ts) ≡ false
      → Unique tunnel_key (put_first tag t ts)
  unfolding put_first find_key
  Unique-renamed [] u fresh = tt
  Unique-renamed (x ∷ xs) u fresh = elim (Bool-cases (bytes_eq x.tag new_tag)) [
    | inl clash ↦ absurd (ground (arith, clash, fresh))
    | inr apart ↦
        let fresh' : is_some (find_key tunnel_key new_tag xs) ≡ false = ground arith in
        let apart' : bytes_eq new_tag x.tag ≡ false =
          ground (arith, bytes_eq_iff new_tag x.tag, bytes_eq_iff x.tag new_tag) in
        elim (Bool-cases (bytes_eq x.tag tag)) [
          | inl here ↦ rw here (ground (arith, is_new, fresh'), u.1)
          | inr other ↦
              rw other (absent-put_first x.tag xs apart' u.0, Unique-renamed xs u.1 fresh')
        ]
  ]

  new_there :
      (ts : List TunnelConfig)
      → is_some (find_key tunnel_key tag ts) ≡ true
      → is_some (find_key tunnel_key new_tag (put_first tag t ts)) ≡ true
  unfolding find_key put_first
  new_there [] h = cc
  new_there (x ∷ xs) h = ground (arith, is_new, new_there xs, bytes_eq_iff new_tag new_tag)

  others_there :
      (k : Bytes) (ts : List TunnelConfig)
      → bytes_eq k tag ≡ false
      → is_some (find_key tunnel_key k ts) ≡ true
      → is_some (find_key tunnel_key k (put_first tag t ts)) ≡ true
  unfolding find_key put_first
  others_there k [] other h = h
  others_there k (x ∷ xs) other h = ground (
    arith,
    others_there k xs other,
    bytes_eq_iff x.tag tag,
    bytes_eq_iff x.tag k,
    bytes_eq_iff k tag,
  )

  tagged :
      (ts : List TunnelConfig) (active : Bytes)
      → is_some (find_key tunnel_key tag ts) ≡ true
      → active_ok ts active ≡ true
      → active_ok (put_first tag t ts) (if bytes_eq active tag then new_tag else active) ≡ true
  unfolding find_key
  tagged [] active there h = cc
  tagged (x ∷ xs) active there h = elim (Bool-cases (bytes_eq active tag)) [
    | inl was ↦ rw was (found-active_ok _ new_tag (new_there (x ∷ xs) there))
    | inr other ↦
        rw other
          (found-active_ok _ active (others_there active (x ∷ xs) other (found_at x xs active h)))
  ]

  -- The routes first, then the tag, as `handleTunnelEdit` does.
  pub renamed-IsRouted :
      (c : Config)
      → IsRenamable tag new_tag c
      → IsRouted (put_tunnel tag t (rename_routes tag new_tag c))
  unfolding put_tunnel rename_routes get_tunnel
  renamed-IsRouted c h = record {
    distinct = Unique-renamed c.tunnels h.routed.distinct h.fresh;
    active = tagged c.tunnels c.route.active h.there h.routed.active;
    mode = h.routed.mode;
  }
