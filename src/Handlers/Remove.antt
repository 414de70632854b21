-- ===== src/Handlers/Remove.antt =====
-- internal/handlers/tunnel_remove.go.
use slipgate.Prelude.{
  Bool, ◌&&◌, List, [], ◌∷◌, ◌++◌, leb, ◌==◌, if◌then◌else◌, Bytes, codes, bytes_eq, length,
  decimal,
}
use slipgate.Config.{TunnelConfig, Config, is_empty}
use slipgate.Config.Store.{get_tunnel, remove_tunnel}
use slipgate.Host.{
  each, on_option, on_result, Action, Env, Done, info, success, warning, done, attempt, ignore,
  get_config, set_config, say, ◌>>=◌, ◌>>◌, error_text,
}
use slipgate.Host.Machine.{remove_all}
use slipgate.Host.Format.{quote}
use slipgate.Actions.{Args, get_arg, fail}
use slipgate.Actions.Ids.{tunnel_remove}
use slipgate.Prompt.{confirm}
use slipgate.Service.{tunnel_service_name, stop, remove}
use slipgate.Transport.{tunnel_dir}
use slipgate.Routing.{remove_route}
use slipgate.Handlers.{set_route, not_found, count_dns, save_or_fail}

abbrev pub first_tag : List TunnelConfig → Bytes
first_tag [] = []
first_tag (t ∷ ts) = t.tag

-- cfg.RemoveTunnel(tag), and another active tunnel in place of that one
unfoldable pub drop_tunnel : Bytes → Config → Config
drop_tunnel tag c =
    let rest = (remove_tunnel c tag).0 in
    if bytes_eq rest.route.active tag
    then set_route (λ r. record r { active = first_tag rest.tunnels }) rest
    else rest

-- multi mode, with at most one DNS tunnel left
unfoldable pub is_single_again : Config → Bool
is_single_again c = bytes_eq c.route.mode (codes "multi") && leb (count_dns c.tunnels) 1

abbrev pub to_single : Config → Config
to_single = set_route (λ r. record r { mode = codes "single" })

-- `for _, t := range cfg.Tunnels { tags = append(tags, t.Tag) }`
unfoldable pub tags_of : List TunnelConfig → List Bytes
tags_of [] = []
tags_of (t ∷ ts) = t.tag ∷ tags_of ts

module _ ⦃env : Env⦄ where
  unfoldable pub remove_tunnel_dir : Bytes → Action Done
  remove_tunnel_dir tag = do
    removed ← attempt (remove_all (tunnel_dir tag))
    on_result removed (λ _. done)
        (λ e. say warning (codes "Failed to remove tunnel dir: " ++ error_text e))

  -- back to single mode
  unfoldable pub leave_multi : Action Done
  leave_multi = do
    c ← get_config
    if is_single_again c
        then (set_config to_single >> say info (codes "Switched to single-tunnel mode"))
        else done

  -- `removeSingleTunnel`
  unfoldable pub remove_single_tunnel : Bytes → Action Done
  remove_single_tunnel tag = do
    ignore (stop (tunnel_service_name tag))
    ignore (remove (tunnel_service_name tag))
    ignore remove_route
    remove_tunnel_dir tag
    set_config (drop_tunnel tag)
    leave_multi

  -- one round of the loop over the tags
  unfoldable pub remove_tag : Bytes → Action Done
  remove_tag tag = do remove_single_tunnel tag; say success (codes "Removed " ++ quote tag)

  -- once the removal of all is confirmed
  unfoldable pub remove_every : List TunnelConfig → Action Done
  remove_every ts = do
    each remove_tag (tags_of ts)
    save_or_fail tunnel_remove
    say success (codes "All " ++ (decimal (length ts) ++ codes " tunnel(s) removed"))

  -- `handleTunnelRemoveAll`
  unfoldable pub handle_remove_all : Action Done
  handle_remove_all = do
    c ← get_config
    if length c.tunnels == 0 then say info (codes "No tunnels to remove") else (do
      sure ← confirm (
          codes "Remove ALL "
          ++ (decimal (length c.tunnels)
              ++ codes " tunnel(s)? This will stop all services and delete all keys."))
      if sure then remove_every c.tunnels else say info (codes "Cancelled"))

  -- once the removal of one is confirmed
  unfoldable pub remove_one : Bytes → Action Done
  remove_one tag = do
    remove_single_tunnel tag
    save_or_fail tunnel_remove
    say success (codes "Tunnel " ++ (quote tag ++ codes " removed"))

  unfoldable pub confirm_remove : Bytes → Action Done
  confirm_remove tag = do
    sure ← confirm (
        codes "Remove tunnel "
        ++ (quote tag ++ codes "? This will stop the service and delete all keys."))
    if sure then remove_one tag else say info (codes "Cancelled")

  -- `handleTunnelRemove`
  unfoldable pub handle_tunnel_remove : Args → Action Done
  handle_tunnel_remove args =
      let tag = get_arg args (codes "tag") in
      if is_empty tag
      then fail tunnel_remove (codes "tunnel tag is required (use --all to remove all)")
      else if bytes_eq tag (codes "--all")
      then handle_remove_all
      else get_config >>= λ c.
          on_option (get_tunnel c tag) (fail tunnel_remove (not_found tag))
            (λ t. confirm_remove tag)
