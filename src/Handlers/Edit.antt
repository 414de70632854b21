-- ===== src/Handlers/Edit.antt =====
-- internal/handlers/tunnel_edit.go. The pointer into the slice of tunnels is the first entry with
-- the tunnel's tag; each assignment through it is written to the configuration at once.
pub mod Handle
pub mod Routed
pub mod Settings
pub mod Whole
use slipgate.Prelude.{
  ℕ, Bool, true, false, not, ◌&&◌, ◌||◌, List, [], ◌∷◌, ◌++◌, Option, none, some, ◌==◌,
  if◌then◌else◌, Bytes, codes, bytes_eq, length, decimal, is_some,
}
use slipgate.Prelude.Table.{load, text_eq}
use slipgate.Config.{
  TunnelConfig, RouteConfig, DnsttConfig, VayDnsConfig, NaiveConfig, Config, is_empty,
  is_direct_transport, transport_dnstt, transport_vaydns, transport_naive, resolved_idle_timeout,
  resolved_keep_alive, resolved_client_id_size,
}
use slipgate.Config.Store.{get_tunnel}
use slipgate.Config.Validation.{Invalid, validate_tag}
use slipgate.Host.{
  Action, Env, Error, plain, Result, ok, err, Done, info, success, warning, print, pure, raise,
  done, attempt, ignore, on_option, on_result, get_config, set_config, say, ◌>>=◌, ◌>>◌, error_text,
}
use slipgate.Host.Machine.{stat, rename, path_join}
use slipgate.Host.Format.{quote, scan_int}
use slipgate.Actions.{Args, SelectOption, get_arg, fail, fail_because}
use slipgate.Actions.Ids.{tunnel_edit}
use slipgate.Prompt.{string, select}
use slipgate.Service.{tunnel_service_name, stop, remove}
use slipgate.Transport.{tunnel_dir, or_else}
use slipgate.Transport.Create.{create_service}
use slipgate.Keys.{Crypto, import_keys, import_key_pair}
use slipgate.Handlers.{not_found, about_tunnel, set_route, save_or_fail}
use slipgate.Handlers.Lifecycle.{or_fail}

-- the first tunnel of that tag becomes `t`
unfoldable pub put_first : Bytes → TunnelConfig → List TunnelConfig → List TunnelConfig
put_first tag t [] = []
put_first tag t (e ∷ es) = if bytes_eq e.tag tag then t ∷ es else e ∷ put_first tag t es

unfoldable pub put_tunnel : Bytes → TunnelConfig → Config → Config
put_tunnel tag t c = record c { tunnels = put_first tag t c.tunnels }

-- the tunnel that is edited, and `changed`
pub record Edit : Type 0 where
  pub tunnel : TunnelConfig
  pub changed : Bool

-- what an edit writes and says
unfoldable pub assign_to : TunnelConfig → TunnelConfig → Bytes → Action Edit
assign_to old t message = do
  set_config (put_tunnel old.tag t)
  say success message
  pure (record { tunnel = t; changed = true })

-- the paths of the keys in another directory
unfoldable pub move_keys : Bytes → TunnelConfig → TunnelConfig
move_keys dir t =
    let path = path_join dir (codes "server.key") in
    record t {
      dnstt = elim t.dnstt [ none ↦ none | some d ↦ some (record d { private_key = path }) ];
      vaydns = elim t.vaydns [ none ↦ none | some v ↦ some (record v { private_key = path }) ];
    }

unfoldable pub rename_routes : Bytes → Bytes → Config → Config
rename_routes tag new_tag = set_route (λ r. record r {
  active = if bytes_eq r.active tag then new_tag else r.active;
  default = if bytes_eq r.default tag then new_tag else r.default;
})

module _ ⦃env : Env⦄ (crypto : Crypto) (message_of : Invalid → Bytes) where
  -- an argument, or what is typed
  unfoldable pub ask : Args → Bytes → Bytes → Bytes → Action Bytes
  ask args key label current =
      let v = get_arg args key in if is_empty v then string label current else pure v

  -- the directory and the service of a tunnel that gets another tag
  unfoldable pub rename_dir : Bytes → Bytes → Action Done
  rename_dir tag new_tag = do
    there ← stat (tunnel_dir tag)
    if there
        then or_fail (rename (tunnel_dir tag) (tunnel_dir new_tag)) tunnel_edit
            (codes "failed to rename tunnel directory")
        else done

  unfoldable pub rename_tunnel : Bytes → TunnelConfig → Action Edit
  rename_tunnel new_tag t = do
    rename_dir t.tag new_tag
    let keyed = move_keys (tunnel_dir new_tag) t
    set_config (put_tunnel t.tag keyed)
    ignore (stop (tunnel_service_name t.tag))
    ignore (remove (tunnel_service_name t.tag))
    set_config (rename_routes t.tag new_tag)
    assign_to t (record keyed { tag = new_tag }) (codes "Tag renamed to " ++ quote new_tag)

  unfoldable pub check_new_tag : Bytes → Config → Action Done
  check_new_tag new_tag c =
      on_option (validate_tag new_tag)
        (if is_some (get_tunnel c new_tag)
          then fail tunnel_edit (codes "tag " ++ (quote new_tag ++ codes " already exists"))
          else done)
        (λ e. fail_because tunnel_edit (codes "invalid tag name") (plain (message_of e)))

  -- the part on the tag
  unfoldable pub edit_tag : Args → TunnelConfig → Action Edit
  edit_tag args t = do
    new_tag ← ask args (codes "new-tag") (codes "Tag") t.tag
    c ← get_config
    if bytes_eq new_tag t.tag
        then pure (record { tunnel = t; changed = false })
        else (check_new_tag new_tag c >> rename_tunnel new_tag t)

  -- a text that is asked for; `keep` says which answers change nothing
  unfoldable pub edit_text :
      Args
      → Bytes
      → Bytes
      → Bytes
      → (Bytes → Bool)
      → (Bytes → TunnelConfig)
      → Bytes
      → Edit
      → Action Edit
  edit_text args key label current keep with_text message e = do
    v ← ask args key label current
    if keep v then pure e else assign_to e.tunnel (with_text v) (message ++ v)

  -- a number that is asked for; what is no number changes nothing
  unfoldable pub edit_number :
      Args → Bytes → Bytes → ℕ → ℕ → (ℕ → TunnelConfig) → Bytes → Edit → Action Edit
  edit_number args key label shown current with_number message e = do
    v ← ask args key label (decimal shown)
    on_option (scan_int v) (pure e) (λ n.
        if n == current then pure e else assign_to e.tunnel (with_number n) (message ++ decimal n))

  unfoldable pub edit_domain : Args → Edit → Action Edit
  edit_domain args e =
      if is_direct_transport e.tunnel
      then pure e
      else edit_text args (codes "domain") (codes "Domain") e.tunnel.domain
          (λ v. bytes_eq v e.tunnel.domain) (λ v. record (e.tunnel) { domain = v })
          (codes "Domain set to ") e

  -- a private key that is typed in, with the function that stores both keys
  unfoldable pub edit_keys : Args → (Bytes → Bytes → TunnelConfig) → Edit → Action Edit
  edit_keys args with_keys e = do
    private ← ask args (codes "private-key") (codes "Private key (hex, blank to keep)") []
    if is_empty private then pure e else (do
      let dir = tunnel_dir e.tunnel.tag
      let private_path = path_join dir (codes "server.key")
      let public_path = path_join dir (codes "server.pub")
      let public = get_arg args (codes "public-key")
      r ← attempt (
          if is_empty public
          then import_keys crypto private private_path public_path
          else import_key_pair crypto private public private_path public_path)
      on_result r
          (λ key. assign_to e.tunnel (with_keys private_path key) (codes "Public key: " ++ key))
          (λ x. say warning (codes "Failed to import key: " ++ error_text x) >> pure e))

  unfoldable pub edit_dnstt : Args → Edit → Action Edit
  edit_dnstt args e = on_option e.tunnel.dnstt (pure e) (λ d. do
    e' ←
        edit_number args (codes "mtu") (codes "MTU") d.mtu d.mtu
          (λ n. record (e.tunnel) { dnstt = some (record d { mtu = n }) }) (codes "MTU set to ") e
    on_option e'.tunnel.dnstt (pure e') (λ d'.
        edit_keys args
          (λ path key. record (e'.tunnel) {
            dnstt = some (record d' { private_key = path; public_key = key });
          })
          e'))
