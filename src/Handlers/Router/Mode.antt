-- ===== src/Handlers/Router/Mode.antt =====
-- The mode that `handleRouterMode` of internal/handlers/router_mode.go leaves.
use slipgate.Prelude.{
  ◌≡◌, refl, sym, false, ◌++◌, Bytes, codes, bytes_eq, bytes_eq_iff, arith, Bool-cases, inl, inr,
}
use slipgate.Config.{Config, is_empty, one_of}
use slipgate.Host.{World, Env, ok, info, gets, set_config, modify, ◌>>=◌, raise}
use slipgate.Host.Ensures.{Ensures, Ensures-bind, Ensures-then}
use slipgate.Host.Frame.{InMemory, say-InMemory}
use slipgate.Actions.{Args, get_arg, fail}
use slipgate.Actions.Ids.{router_mode}
use slipgate.Routing.{switch_mode}
use slipgate.Handlers.Lifecycle.{or_fail}
use slipgate.Handlers.Invariant.{handler_rules}
use slipgate.Handlers.Router.{
  modes, set_mode, enter_mode, new_mode, change_mode, handle_router_mode,
}

record HasMode (mode : Bytes) (c : Config) : Type 0 where
  pub same : c.route.mode ≡ mode

module _ ⦃env : Env⦄ (mode : Bytes) where
  set_mode-HasMode : (w : World) → InMemory (HasMode mode) (set_config (set_mode mode) w).1
  unfolding set_config modify set_mode
  set_mode-HasMode w = record { holds = record { same = refl } }

  enter_mode-Ensures : (c : Config) → Ensures (InMemory (HasMode mode)) (enter_mode mode c)
  unfolding enter_mode
  enter_mode-Ensures c =
      Ensures-bind (or_fail (switch_mode c) router_mode (codes "failed to switch mode")) _ (λ _.
        Ensures-then (set_config (set_mode mode)) _ set_mode-HasMode (λ _. search handler_rules))

  change_mode-mode :
      (w : World) → (change_mode mode w).0 ≡ ok tt → InMemory (HasMode mode) (change_mode mode w).1
  unfolding change_mode new_mode fail gets ◌>>=◌ raise
  change_mode-mode w e = elim (Bool-cases (one_of mode modes)) [
    | inl valid ↦ elim (Bool-cases (bytes_eq mode w.config.route.mode)) [
      | inl already ↦
          let now : InMemory (HasMode mode) w = record {
            holds = record { same = sym ((bytes_eq_iff mode w.config.route.mode).0 already) };
          } in
          rw (valid, already)
            ((say-InMemory info (codes "Already in " ++ (mode ++ codes " mode"))).at w now)
      | inr other ↦
          let there : (enter_mode mode w.config w).0 ≡ ok tt = ground arith in
          rw (valid, other) ((enter_mode-Ensures w.config).at w tt there)
    ]
    | inr invalid ↦ ground arith
  ]

  -- When `handleRouterMode` succeeds with a mode among its arguments, that is the mode of the
  -- configuration in memory.
  pub handle_router_mode-mode :
      (args : Args) (w : World)
      → get_arg args (codes "mode") ≡ mode
      → is_empty mode ≡ false
      → (handle_router_mode args w).0 ≡ ok tt
      → (handle_router_mode args w).1.config.route.mode ≡ mode
  unfolding handle_router_mode
  handle_router_mode-mode args w given filled e =
      let done_ : (change_mode mode w).0 ≡ ok tt = ground arith in
      rw (given, filled) ((change_mode-mode w done_).holds.same)
