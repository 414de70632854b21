-- ===== src/Config/Store/Laws.antt =====
-- The tunnels and the users of a configuration as tables with one entry for each key.
use slipgate.Prelude.{
  ◌≡◌, refl, List, [], ◌∷◌, ◌++◌, none, some, arith, if◌then◌else◌, Bytes, bytes_eq, bytes_eq_iff,
  is_some, Bool-cases, inl, inr,
}
use slipgate.Config.{TunnelConfig, UserConfig, Config}
use slipgate.Config.Store.{
  find_key, replace_key, remove_key, tunnel_key, user_key, get_tunnel, add_tunnel, update_tunnel,
  remove_tunnel, get_user, add_user, remove_user,
}

module _ {A : Type 0} (key : A → Bytes) where
  -- No two entries have one key.
  abbrev pub Unique : List A → Type 0
  Unique [] = Unit
  Unique (x ∷ xs) = (find_key key (key x) xs ≡ none) × Unique xs

  pub find_key-append :
      (k : Bytes) (xs : List A) (v : A)
      → find_key key k (xs ++ (v ∷ [])) ≡ (
          if is_some (find_key key k xs)
          then find_key key k xs
          else if bytes_eq (key v) k
          then some v
          else none)
  unfolding find_key
  find_key-append k [] v = refl
  find_key-append k (x ∷ xs) v = ground (arith, find_key-append k xs v)

  replace_key-found :
      (v : A) (xs : List A) → (replace_key key v xs).1 ≡ is_some (find_key key (key v) xs)
  unfolding find_key replace_key
  replace_key-found v [] = refl
  replace_key-found v (x ∷ xs) = ground (arith, replace_key-found v xs)

  find_key-replace_key :
      (v : A) (k : Bytes) (xs : List A)
      → find_key key k (replace_key key v xs).0 ≡ (
          if bytes_eq (key v) k
          then (if (replace_key key v xs).1 then some v else none)
          else find_key key k xs)
  unfolding find_key replace_key
  find_key-replace_key v k [] = ground arith
  find_key-replace_key v k (x ∷ xs) = ground (
    arith,
    find_key-replace_key v k xs,
    bytes_eq_iff (key v) k,
    bytes_eq_iff (key x) k,
    bytes_eq_iff (key x) (key v),
  )

  Unique-replace_key : (v : A) (xs : List A) → Unique xs → Unique (replace_key key v xs).0
  unfolding find_key replace_key
  Unique-replace_key v [] u = tt
  Unique-replace_key v (x ∷ xs) u = ground (
    arith,
    Unique-replace_key v xs,
    find_key-replace_key v (key x) xs,
    bytes_eq_iff (key x) (key v),
    bytes_eq_iff (key v) (key x),
  )

  pub Unique-append :
      (v : A) (xs : List A) → find_key key (key v) xs ≡ none → Unique xs → Unique (xs ++ (v ∷ []))
  unfolding find_key
  Unique-append v [] h u = (refl, tt)
  Unique-append v (x ∷ xs) h u = ground (
    arith,
    Unique-append v xs,
    find_key-append (key x) xs v,
    bytes_eq_iff (key x) (key v),
    bytes_eq_iff (key v) (key x),
  )

  pub find_key-remove_key :
      (k j : Bytes) (xs : List A)
      → Unique xs
      → find_key key j (remove_key key k xs).0 ≡ (if bytes_eq k j then none else find_key key j xs)
  unfolding find_key remove_key
  find_key-remove_key k j [] u = ground arith
  find_key-remove_key k j (x ∷ xs) u = ground (
    arith,
    find_key-remove_key k j xs,
    bytes_eq_iff k j,
    bytes_eq_iff (key x) k,
    bytes_eq_iff (key x) j,
  )

  remove_key-found :
      (k : Bytes) (xs : List A) → (remove_key key k xs).1 ≡ is_some (find_key key k xs)
  unfolding find_key remove_key
  remove_key-found k [] = refl
  remove_key-found k (x ∷ xs) = ground (arith, remove_key-found k xs)

  pub Unique-remove_key : (k : Bytes) (xs : List A) → Unique xs → Unique (remove_key key k xs).0
  unfolding find_key remove_key
  Unique-remove_key k [] u = tt
  Unique-remove_key k (x ∷ xs) u = ground (
    arith,
    Unique-remove_key k xs,
    find_key-remove_key k (key x) xs,
    bytes_eq_iff (key x) k,
    bytes_eq_iff k (key x),
  )

-- From users with distinct names, after `AddUser u` a lookup of the name of `u` gives `u`, and any other lookup what it
-- gave before, and names are still distinct.
pub add_user-table :
    (c : Config) (u : UserConfig) (name : Bytes)
    → Unique user_key c.users
    → (get_user (add_user c u) name
        ≡ (if bytes_eq u.username name then some u else get_user c name))
      × Unique user_key (add_user c u).users
unfolding get_user add_user
add_user-table c u name distinct = elim (Bool-cases (replace_key user_key u c.users).1) [
  | inl found ↦ (
    rw found (ground (arith, find_key-replace_key user_key u name c.users)),
    rw found (Unique-replace_key user_key u c.users distinct),
  )
  | inr fresh ↦
      let absent : find_key user_key u.username c.users ≡ none =
        ground (arith, replace_key-found user_key u c.users) in
      (
        rw fresh
            (ground (arith, find_key-append user_key name c.users u, bytes_eq_iff u.username name)),
        rw fresh (Unique-append user_key u c.users absent distinct),
      )
]

-- From users with distinct names, `RemoveUser` says whether the name was there, removes it, keeps every
-- other lookup, and leaves distinct names.
pub remove_user-table :
    (c : Config) (name other : Bytes)
    → Unique user_key c.users
    → ((remove_user c name).1 ≡ is_some (get_user c name))
      × (get_user (remove_user c name).0 other
          ≡ (if bytes_eq name other then none else get_user c other))
      × Unique user_key (remove_user c name).0.users
unfolding get_user remove_user
remove_user-table c name other u = (
  remove_key-found user_key name c.users,
  find_key-remove_key user_key name other c.users u,
  Unique-remove_key user_key name c.users u,
)

-- From tunnels with distinct tags, `RemoveTunnel` says whether the tag was there, removes it, keeps every
-- other lookup, and leaves distinct tags.
pub remove_tunnel-table :
    (c : Config) (tag other : Bytes)
    → Unique tunnel_key c.tunnels
    → ((remove_tunnel c tag).1 ≡ is_some (get_tunnel c tag))
      × (get_tunnel (remove_tunnel c tag).0 other
          ≡ (if bytes_eq tag other then none else get_tunnel c other))
      × Unique tunnel_key (remove_tunnel c tag).0.tunnels
unfolding get_tunnel remove_tunnel
remove_tunnel-table c tag other u = (
  remove_key-found tunnel_key tag c.tunnels,
  find_key-remove_key tunnel_key tag other c.tunnels u,
  Unique-remove_key tunnel_key tag c.tunnels u,
)

-- From tunnels with distinct tags, `UpdateTunnel t` changes the lookup of the tag of `t` alone, and only if that tag is
-- present, and leaves distinct tags.
pub update_tunnel-table :
    (c : Config) (t : TunnelConfig) (tag : Bytes)
    → Unique tunnel_key c.tunnels
    → (get_tunnel (update_tunnel c t) tag ≡ (
        if bytes_eq t.tag tag
        then (if is_some (get_tunnel c t.tag) then some t else none)
        else get_tunnel c tag))
      × Unique tunnel_key (update_tunnel c t).tunnels
unfolding get_tunnel update_tunnel
update_tunnel-table c t tag distinct = (
  rw (← replace_key-found tunnel_key t c.tunnels) (find_key-replace_key tunnel_key t tag c.tunnels),
  Unique-replace_key tunnel_key t c.tunnels distinct,
)

-- From tunnels with distinct tags, `AddTunnel` of a tag that is not present keeps tags distinct; the new tag is found, and the other lookups are kept.
pub add_tunnel-table :
    (c : Config) (t : TunnelConfig) (tag : Bytes)
    → Unique tunnel_key c.tunnels
    → get_tunnel c t.tag ≡ none
    → (get_tunnel (add_tunnel c t) tag ≡ (if bytes_eq t.tag tag then some t else get_tunnel c tag))
      × Unique tunnel_key (add_tunnel c t).tunnels
unfolding get_tunnel add_tunnel
add_tunnel-table c t tag distinct h = (
  ground (arith, find_key-append tunnel_key tag c.tunnels t, bytes_eq_iff t.tag tag),
  Unique-append tunnel_key t c.tunnels h distinct,
)
