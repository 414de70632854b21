-- ===== src/Handlers/Add/Whole.antt =====
-- The whole handler of internal/handlers/tunnel_add.go keeps the routing consistent.
use slipgate.Prelude.{Bytes, Bool}
use slipgate.Config.{Config}
use slipgate.Config.Validation.{Invalid, BadPassword}
use slipgate.ClientConfig.{Library}
use slipgate.Host.{Env, Action, get_config, done}
use slipgate.Host.Keeps.{Keeps, Keeps-bind, Keeps-gets, Keeps-if, Keeps-done}
use slipgate.Host.Frame.{InMemory}
use slipgate.Actions.{Args}
use slipgate.Keys.{Crypto}
use slipgate.Handlers.Packages.{Packages, IsQuiet}
use slipgate.Handlers.Routed.{IsRouted}
use slipgate.Handlers.Invariant.{handler_rules}
use slipgate.Handlers.Users.Routed.{warn-InMemory, create_user_interactive-IsRouted}
use slipgate.Handlers.Add.{arg_or}
use slipgate.Handlers.Add.Routed.{add_single_tunnel-IsRouted}
use slipgate.Handlers.Add.Both.{
  ask_domain, add_for, add_each, summarise, offer_user, ask_backend, ask_first_domain, finish_add,
  handle_tunnel_add, Outcome,
}

module _ ⦃env : Env⦄ (crypto : Crypto) (message_of : Invalid → Bytes) (packages : Packages)
    (quiet : IsQuiet packages) where
  ask_domain-IsRouted :
      (transport : Bytes) (both : Bool) (backend tag domain : Bytes)
      → Keeps
          (InMemory IsRouted)
          (ask_domain crypto message_of packages transport both backend tag domain)
  unfolding ask_domain
  ask_domain-IsRouted transport both backend tag domain = search handler_rules

  add_for-IsRouted :
      (args : Args) (transport : Bytes) (both : Bool) (tag domain backend : Bytes) (o : Outcome)
      → Keeps
          (InMemory IsRouted)
          (add_for crypto message_of packages args transport both tag domain backend o)
  unfolding add_for
  add_for-IsRouted args transport both tag domain backend o =
      let add = add_single_tunnel-IsRouted crypto message_of packages quiet in
      search (handler_rules, ask_domain-IsRouted, add)

  add_each-IsRouted :
      (args : Args) (transport backend tag domain : Bytes)
      → Keeps
          (InMemory IsRouted)
          (add_each crypto message_of packages args transport backend tag domain)
  unfolding add_each
  add_each-IsRouted args transport backend tag domain = search (handler_rules, add_for-IsRouted)

  summarise-IsRouted :
      (o : Outcome) → Keeps (InMemory IsRouted) (summarise crypto message_of packages o)
  unfolding summarise
  summarise-IsRouted o = search handler_rules

  arg_or-IsRouted :
      (args : Args) (key : Bytes) (question : Action Bytes)
      → Keeps (InMemory IsRouted) question
      → Keeps (InMemory IsRouted) (arg_or crypto message_of packages args key question)
  unfolding arg_or
  arg_or-IsRouted args key question k = search handler_rules

module _ ⦃env : Env⦄ (lib : Library) (crypto : Crypto) (message_of : Invalid → Bytes)
    (password_message : BadPassword → Bytes) (packages : Packages) (quiet : IsQuiet packages) where
  offer_user-IsRouted :
      (c : Config) → Keeps (InMemory IsRouted) (offer_user lib password_message packages c)
  unfolding offer_user
  offer_user-IsRouted c =
      let create = create_user_interactive-IsRouted lib password_message packages quiet in
      search (handler_rules, warn-InMemory, create) depth 9

  ask_backend-IsRouted :
      (args : Args) (transport : Bytes)
      → Keeps
          (InMemory IsRouted)
          (ask_backend lib crypto message_of password_message packages args transport)
  unfolding ask_backend
  ask_backend-IsRouted args transport = search handler_rules

  ask_first_domain-IsRouted :
      (args : Args) (transport : Bytes)
      → Keeps
          (InMemory IsRouted)
          (ask_first_domain lib crypto message_of password_message packages args transport)
  unfolding ask_first_domain
  ask_first_domain-IsRouted args transport = search handler_rules

  finish_add-IsRouted :
      (o : Outcome)
      → Keeps (InMemory IsRouted) (finish_add lib crypto message_of password_message packages o)
  unfolding finish_add
  finish_add-IsRouted o =
      Keeps-bind (summarise crypto message_of packages o) _
        (summarise-IsRouted crypto message_of packages quiet o)
        (λ _. Keeps-bind get_config _ (Keeps-gets _) (λ c.
          Keeps-if _ (offer_user lib password_message packages c) done (λ _. offer_user-IsRouted c)
            (λ _. Keeps-done)))

  pub handle_tunnel_add-IsRouted :
      (args : Args)
      → Keeps
          (InMemory IsRouted)
          (handle_tunnel_add lib crypto message_of password_message packages args)
  unfolding handle_tunnel_add
  handle_tunnel_add-IsRouted args =
      let add = add_each-IsRouted crypto message_of packages quiet args in
      let given = arg_or-IsRouted crypto message_of packages quiet args in
      search
        (
          handler_rules, add, given, ask_backend-IsRouted, ask_first_domain-IsRouted,
          finish_add-IsRouted,
        )
        depth 9
