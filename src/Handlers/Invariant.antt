-- ===== src/Handlers/Invariant.antt =====
-- The handlers of internal/handlers keep the routing of the configuration in memory consistent.
use slipgate.Prelude.{◌≡◌, refl, true, List, ◌++◌, Bytes, codes, Option-cases, inl, inr}
use slipgate.Config.{TunnelConfig, Config, one_of}
use slipgate.Config.Store.{get_tunnel}
use slipgate.Host.{World, Action, Env, Error, raise, get_config, gets, ◌>>=◌, on_option}
use slipgate.Host.Keeps.{Keeps, Keeps-if, Keeps-bind, Keeps-gets, keeps_rules}
use slipgate.Host.Frame.{InMemory, set_config-InMemory}
use slipgate.Actions.{Args, fail, fail_because, fail_with_hint}
use slipgate.Actions.Ids.{router_mode}
use slipgate.Prompt.Frame.{prompt_rules}
use slipgate.Service.Frame.{service_rules}
use slipgate.Routing.Frame.{routing_rules, switch_mode-InMemory}
use slipgate.Handlers.{save_to, save, save_or_fail}
use slipgate.Handlers.Lifecycle.{or_fail}
use slipgate.Handlers.Remove.{
  remove_tunnel_dir, leave_multi, remove_single_tunnel, remove_tag, remove_every, handle_remove_all,
  remove_one, confirm_remove, handle_tunnel_remove,
}
use slipgate.Handlers.Router.{
  modes, activate, switch_named, enter_mode, new_mode, switch_to, handle_router_switch, change_mode,
  handle_router_mode,
}
use slipgate.Handlers.Routed.{
  IsRouted, IsNamed, drop_tunnel-IsRouted, to_single-IsRouted, set_mode-IsRouted,
  set_active-IsNamed,
}

module _ {P : World → Type 0} {A : Type 0} where
  pub fail-Keeps : (id message : Bytes) → Keeps P (fail {A = A} id message)
  unfolding fail
  fail-Keeps id message = search keeps_rules

  pub fail_because-Keeps :
      (id message : Bytes) (e : Error) → Keeps P (fail_because {A = A} id message e)
  unfolding fail_because
  fail_because-Keeps id message e = search keeps_rules

  pub fail_with_hint-Keeps :
      (id message hint : Bytes) → Keeps P (fail_with_hint {A = A} id message hint)
  unfolding fail_with_hint
  fail_with_hint-Keeps id message hint = search keeps_rules

module _ {P : World → Type 0} ⦃env : Env⦄ {A : Type 0} where
  pub or_fail-Keeps :
      (m : Action A) (id message : Bytes) → Keeps P m → Keeps P (or_fail m id message)
  unfolding or_fail
  or_fail-Keeps m id message k = search (keeps_rules, fail_because-Keeps)

module _ ⦃env : Env⦄ {P : Config → Type 0} where
  pub save_to-InMemory : (c : Config) (path : Bytes) → Keeps (InMemory P) (save_to c path)
  unfolding save_to
  save_to-InMemory c path = search service_rules

  pub save-InMemory : Keeps (InMemory P) save
  unfolding save
  save-InMemory = search (service_rules, save_to-InMemory)

  pub save_or_fail-InMemory : (id : Bytes) → Keeps (InMemory P) (save_or_fail id)
  unfolding save_or_fail
  save_or_fail-InMemory id = search (service_rules, save-InMemory, fail_because-Keeps)

pub ruleset handler_rules = (
  routing_rules, prompt_rules, fail-Keeps, fail_because-Keeps, fail_with_hint-Keeps, or_fail-Keeps,
  save_or_fail-InMemory,
)

module _ ⦃env : Env⦄ where
  remove_tunnel_dir-IsRouted : (tag : Bytes) → Keeps (InMemory IsRouted) (remove_tunnel_dir tag)
  unfolding remove_tunnel_dir
  remove_tunnel_dir-IsRouted tag = search handler_rules

  leave_multi-IsRouted : Keeps (InMemory IsRouted) leave_multi
  unfolding leave_multi
  leave_multi-IsRouted = search (handler_rules, set_config-InMemory, to_single-IsRouted)

  remove_single_tunnel-IsRouted :
      (tag : Bytes) → Keeps (InMemory IsRouted) (remove_single_tunnel tag)
  unfolding remove_single_tunnel
  remove_single_tunnel-IsRouted tag =
      search
        (
          handler_rules, remove_tunnel_dir-IsRouted, leave_multi-IsRouted, set_config-InMemory,
          drop_tunnel-IsRouted,
        )
        depth 9

  remove_tag-IsRouted : (tag : Bytes) → Keeps (InMemory IsRouted) (remove_tag tag)
  unfolding remove_tag
  remove_tag-IsRouted tag = search (handler_rules, remove_single_tunnel-IsRouted)

  remove_every-IsRouted : (ts : List TunnelConfig) → Keeps (InMemory IsRouted) (remove_every ts)
  unfolding remove_every
  remove_every-IsRouted ts = search (handler_rules, remove_tag-IsRouted)

  handle_remove_all-IsRouted : Keeps (InMemory IsRouted) handle_remove_all
  unfolding handle_remove_all
  handle_remove_all-IsRouted = search (handler_rules, remove_every-IsRouted) depth 8

  remove_one-IsRouted : (tag : Bytes) → Keeps (InMemory IsRouted) (remove_one tag)
  unfolding remove_one
  remove_one-IsRouted tag = search (handler_rules, remove_single_tunnel-IsRouted)

  confirm_remove-IsRouted : (tag : Bytes) → Keeps (InMemory IsRouted) (confirm_remove tag)
  unfolding confirm_remove
  confirm_remove-IsRouted tag = search (handler_rules, remove_one-IsRouted)

  pub handle_tunnel_remove-IsRouted :
      (args : Args) → Keeps (InMemory IsRouted) (handle_tunnel_remove args)
  unfolding handle_tunnel_remove
  handle_tunnel_remove-IsRouted args =
      search (handler_rules, handle_remove_all-IsRouted, confirm_remove-IsRouted) depth 8

  enter_mode-IsRouted :
      (mode : Bytes) (c : Config)
      → one_of mode modes ≡ true
      → Keeps (InMemory IsRouted) (enter_mode mode c)
  unfolding enter_mode
  enter_mode-IsRouted mode c valid =
      let set = set_mode-IsRouted mode valid in
      search (handler_rules, switch_mode-InMemory, set_config-InMemory, set) depth 8

  new_mode-IsRouted :
      (mode : Bytes) (c : Config)
      → one_of mode modes ≡ true
      → Keeps (InMemory IsRouted) (new_mode mode c)
  unfolding new_mode
  new_mode-IsRouted mode c valid =
      let enter = enter_mode-IsRouted mode c valid in search (handler_rules, enter)

  change_mode-IsRouted : (mode : Bytes) → Keeps (InMemory IsRouted) (change_mode mode)
  unfolding change_mode
  change_mode-IsRouted mode =
      Keeps-if (one_of mode modes) (get_config >>= new_mode mode) _
        (λ valid.
          Keeps-bind get_config (new_mode mode) (Keeps-gets _)
            (λ c. new_mode-IsRouted mode c valid))
        (λ _. fail-Keeps router_mode (codes "invalid mode: " ++ mode))

  pub handle_router_mode-IsRouted :
      (args : Args) → Keeps (InMemory IsRouted) (handle_router_mode args)
  unfolding handle_router_mode
  handle_router_mode-IsRouted args = search (handler_rules, change_mode-IsRouted)

  activate-IsNamed : (tag : Bytes) (c : Config) → Keeps (InMemory (IsNamed tag)) (activate tag c)
  unfolding activate
  activate-IsNamed tag c = search (handler_rules, set_config-InMemory, set_active-IsNamed) depth 8

  switch_to-IsNamed : (tag : Bytes) (c : Config) → Keeps (InMemory (IsNamed tag)) (switch_to tag c)
  unfolding switch_to
  switch_to-IsNamed tag c = search (handler_rules, activate-IsNamed)

  switch_named-IsRouted :
      (tag : Bytes) → Keeps (InMemory IsRouted) (get_config >>= switch_named tag)
  unfolding switch_named gets ◌>>=◌ on_option fail raise
  switch_named-IsRouted tag = record {
    at = λ w h. elim (Option-cases (get_tunnel w.config tag)) [
      | inl missing ↦ rw (switch_named, missing) h
      | inr (t, found) ↦
          let named : InMemory (IsNamed tag) w = record {
            holds = record { routed = h.holds; named = rw found refl };
          } in
          let after = (switch_to-IsNamed tag w.config).at w named in
          rw (switch_named, found) (record { holds = after.holds.routed })
    ];
  }

  pub handle_router_switch-IsRouted :
      (args : Args) → Keeps (InMemory IsRouted) (handle_router_switch args)
  unfolding handle_router_switch
  handle_router_switch-IsRouted args = search (handler_rules, switch_named-IsRouted)
