-- ===== src/Config/Store.antt =====
-- internal/config/config.go: the lookups and updates of the tunnels, the backends and the users.
-- A pointer into the slice that a lookup returns is the entry's value here.
pub mod Laws
use slipgate.Prelude.{
  ℕ, Bool, true, false, List, [], ◌∷◌, ◌++◌, Option, none, some, if◌then◌else◌, Bytes, bytes_eq,
}
use slipgate.Config.{TunnelConfig, BackendConfig, UserConfig, Config}

module _ {A : Type 0} (key : A → Bytes) where
  -- for i := range xs { if xs[i].Key == k { return &xs[i] } }; return nil
  unfoldable pub find_key : Bytes → List A → Option A
  find_key k [] = none
  find_key k (x ∷ xs) = if bytes_eq (key x) k then some x else find_key k xs

  -- the first entry with the key of `v` becomes `v`; the flag says whether there was one
  pub replace_key : A → List A → List A × Bool
  replace_key v [] = ([], false)
  replace_key v (x ∷ xs) =
      let (rest, found) = replace_key v xs in
      if bytes_eq (key x) (key v) then (v ∷ xs, true) else (x ∷ rest, found)

  -- xs = append(xs[:i], xs[i+1:]...); return true
  unfoldable pub remove_key : Bytes → List A → List A × Bool
  remove_key k [] = ([], false)
  remove_key k (x ∷ xs) =
      let (rest, found) = remove_key k xs in
      if bytes_eq (key x) k then (xs, true) else (x ∷ rest, found)

abbrev pub tunnel_key : TunnelConfig → Bytes
tunnel_key t = t.tag

abbrev pub user_key : UserConfig → Bytes
user_key u = u.username

unfoldable pub get_tunnel : Config → Bytes → Option TunnelConfig
unfolding find_key
get_tunnel c tag = find_key tunnel_key tag c.tunnels

unfoldable pub add_tunnel : Config → TunnelConfig → Config
add_tunnel c t = record c { tunnels = c.tunnels ++ (t ∷ []) }

-- with no tunnel of that tag nothing changes
unfoldable pub update_tunnel : Config → TunnelConfig → Config
unfolding replace_key
update_tunnel c t = record c { tunnels = (replace_key tunnel_key t c.tunnels).0 }

unfoldable pub remove_tunnel : Config → Bytes → Config × Bool
unfolding remove_key
remove_tunnel c tag =
    let (tunnels, found) = remove_key tunnel_key tag c.tunnels in
    (record c { tunnels = tunnels }, found)

unfoldable pub get_backend : Config → Bytes → Option BackendConfig
unfolding find_key
get_backend c tag = find_key (λ (b : BackendConfig). b.tag) tag c.backends

unfoldable pub get_user : Config → Bytes → Option UserConfig
unfolding find_key
get_user c name = find_key user_key name c.users

unfoldable pub add_user : Config → UserConfig → Config
unfolding replace_key
add_user c u =
    let (users, found) = replace_key user_key u c.users in
    if found then record c { users = users } else record c { users = c.users ++ (u ∷ []) }

unfoldable pub remove_user : Config → Bytes → Config × Bool
unfolding remove_key
remove_user c name =
    let (users, found) = remove_key user_key name c.users in (record c { users = users }, found)
