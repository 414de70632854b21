-- ===== src/Handlers/Router.antt =====
-- internal/handlers/router_status.go, router_mode.go and router_switch.go.
pub mod Mode
use slipgate.Prelude.{
  ℕ, zero, suc, not, List, [], ◌∷◌, ◌++◌, none, some, ◌==◌, if◌then◌else◌, Bytes, codes, bytes_eq,
  length,
}
use slipgate.Config.{TunnelConfig, Config, is_empty, one_of, transport_dnstt}
use slipgate.Config.Store.{get_tunnel}
use slipgate.Host.{
  each, on_option, Action, Env, Done, info, success, print, done, get_config, set_config, say,
  ◌>>=◌, ◌>>◌,
}
use slipgate.Host.Format.{quote, pad}
use slipgate.Actions.{Args, get_arg, fail, fail_with_hint}
use slipgate.Actions.Ids.{router_mode, router_switch, router_mode_options}
use slipgate.Prompt.{select}
use slipgate.Service.{tunnel_service_name, status, router_service}
use slipgate.Routing.{switch_active, switch_mode}
use slipgate.Handlers.{set_route, not_found, save_or_fail}
use slipgate.Handlers.Lifecycle.{or_fail, status_row, noizdns_tag}

-- "  " + "──…──", the rule under the header
unfoldable pub rule : ℕ → Bytes
rule zero = []
rule (suc n) = 226 ∷ 148 ∷ 128 ∷ rule n

abbrev pub modes : List Bytes
modes = codes "single" ∷ codes "multi" ∷ []

-- cfg.Route.Active = tag, cfg.Route.Mode = mode
unfoldable pub set_active : Bytes → Config → Config
set_active tag = set_route (λ r. record r { active = tag })

unfoldable pub set_mode : Bytes → Config → Config
set_mode mode = set_route (λ r. record r { mode = mode })

module _ ⦃env : Env⦄ where
  -- `handleRouterSwitch`, in single mode
  unfoldable pub activate : Bytes → Config → Action Done
  activate tag c = do
    or_fail (switch_active c tag) router_switch (codes "failed to switch tunnel")
    set_config (set_active tag)
    save_or_fail router_switch
    say success (codes "Switched active tunnel to " ++ quote tag)

  unfoldable pub switch_to : Bytes → Config → Action Done
  switch_to tag c =
      if not (bytes_eq c.route.mode (codes "single"))
      then fail_with_hint router_switch (codes "switch only works in single mode")
          (codes "Run 'slipgate router mode single' first")
      else activate tag c

  unfoldable pub switch_named : Bytes → Config → Action Done
  switch_named tag c =
      on_option (get_tunnel c tag) (fail router_switch (not_found tag)) (λ t. switch_to tag c)

  -- `handleRouterSwitch`
  unfoldable pub handle_router_switch : Args → Action Done
  handle_router_switch args =
      let tag = get_arg args (codes "tag") in
      if is_empty tag
      then fail router_switch (codes "tunnel tag is required")
      else get_config >>= switch_named tag

  -- `handleRouterMode`, from another mode
  unfoldable pub enter_mode : Bytes → Config → Action Done
  enter_mode mode c = do
    or_fail (switch_mode c) router_mode (codes "failed to switch mode")
    set_config (set_mode mode)
    save_or_fail router_mode
    say success (codes "Switched to " ++ (mode ++ codes " mode"))

  unfoldable pub new_mode : Bytes → Config → Action Done
  new_mode mode c =
      if bytes_eq mode c.route.mode
      then say info (codes "Already in " ++ (mode ++ codes " mode"))
      else enter_mode mode c

  unfoldable pub change_mode : Bytes → Action Done
  change_mode mode =
      if one_of mode modes
      then get_config >>= new_mode mode
      else fail router_mode (codes "invalid mode: " ++ mode)

  -- `handleRouterMode`
  unfoldable pub handle_router_mode : Args → Action Done
  handle_router_mode args =
      let mode = get_arg args (codes "mode") in
      if is_empty mode
      then (select (codes "Router mode") router_mode_options >>= change_mode)
      else change_mode mode

  -- one tunnel of `handleRouterStatus`
  unfoldable pub show_route : Bytes → TunnelConfig → Action Done
  show_route active t = do
    answer ← status (tunnel_service_name t.tag)
    let state = if is_empty answer.0 then codes "unknown" else answer.0
    let marker = if bytes_eq t.tag active then codes "*" else codes " "
    say print (
        codes " "
        ++ (marker
            ++ (pad 15 t.tag
                ++ (codes " "
                    ++ (pad 12 t.transport
                        ++ (codes " "
                            ++ (pad 8 t.backend
                                ++ (codes " " ++ (pad 25 t.domain ++ (codes " " ++ state))))))))))
    if bytes_eq t.transport transport_dnstt
        then say print (status_row (noizdns_tag t.tag) (codes "noizdns") t.backend t.domain state)
        else done

  -- `handleRouterStatus`
  unfoldable pub handle_router_status : Action Done
  handle_router_status = do
    c ← get_config
    say print (codes "  Mode:    " ++ c.route.mode)
    say print (codes "  Active:  " ++ c.route.active)
    say print (codes "  Default: " ++ c.route.default)
    answer ← status router_service
    say print
        (codes "  Router:  " ++ elim answer.1 [ none ↦ answer.0 | some e ↦ codes "not installed" ])
    say print []
    say print (
        status_row (codes "TAG") (codes "TRANSPORT") (codes "BACKEND") (codes "DOMAIN")
          (codes "STATUS"))
    say print (codes "  " ++ rule 73)
    each (show_route c.route.active) c.tunnels
    if length c.tunnels == 0 then say info (codes "No tunnels configured") else done
