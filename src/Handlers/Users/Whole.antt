-- ===== src/Handlers/Users/Whole.antt =====
-- `handleSystemUsers` of internal/handlers/system_sshusers.go, with all its branches, leaves the tunnels and the route alone.
use slipgate.Prelude.{ℕ, zero, suc, List, Bytes}
use slipgate.Config.{Config, UserConfig}
use slipgate.Config.Store.{remove_user}
use slipgate.Config.Validation.{Invalid, BadPassword}
use slipgate.ClientConfig.{Library}
use slipgate.Host.{Env, Action}
use slipgate.Host.Keeps.{Keeps}
use slipgate.Host.Frame.{InMemory, set_config-InMemory}
use slipgate.Actions.{Args}
use slipgate.System.Frame.{system_rules}
use slipgate.SocksService.Frame.{socks_rules}
use slipgate.Handlers.Packages.{Packages, IsQuiet}
use slipgate.Handlers.Routed.{IsRouted}
use slipgate.Handlers.Invariant.{handler_rules}
use slipgate.Handlers.Users.{
  as_user_error, list_user, show_username, list_users, remove_named, remove_branch, pick_user,
  known_user, ask_password, set_password, offer_configs, edit_password,
}
use slipgate.Handlers.Users.Routed.{
  add_user-IsRouted, run_socks_as-InMemory, show_user_configs-InMemory, ask_username-IsRouted,
  check_password-IsRouted, update_socks-IsRouted, update_warp-IsRouted,
  create_user_interactive-IsRouted,
}
use slipgate.Handlers.Users.Bulk.{
  resolve_bulk_count, ask_prefix, add_bulk_user, add_bulk, check_prefix, show_cred,
  show_cred_configs, offer_bulk, finish_bulk, bulk_add, users_branch, handle_system_users,
}

remove_user-IsRouted : (name : Bytes) (c : Config) → IsRouted c → IsRouted (remove_user c name).0
unfolding remove_user
remove_user-IsRouted name c h = record { distinct = h.distinct; active = h.active; mode = h.mode }

module _ ⦃env : Env⦄ {P : Config → Type 0} where
  as_user_error-InMemory :
      {A : Type 0} (m : Action A) → Keeps (InMemory P) m → Keeps (InMemory P) (as_user_error m)
  unfolding as_user_error
  as_user_error-InMemory m k = search handler_rules

  resolve_bulk_count-InMemory : (args : Args) → Keeps (InMemory P) (resolve_bulk_count args)
  unfolding resolve_bulk_count
  resolve_bulk_count-InMemory args = search handler_rules depth 9

  ask_prefix-InMemory : (args : Args) → Keeps (InMemory P) (ask_prefix args)
  unfolding ask_prefix
  ask_prefix-InMemory args = search handler_rules

  check_prefix-InMemory :
      (message_of : Invalid → Bytes) (prefix : Bytes)
      → Keeps (InMemory P) (check_prefix message_of prefix)
  unfolding check_prefix
  check_prefix-InMemory message_of prefix = search handler_rules

  show_cred-InMemory : (u : UserConfig) → Keeps (InMemory P) (show_cred u)
  unfolding show_cred
  show_cred-InMemory u = search handler_rules

  show_cred_configs-InMemory :
      (lib : Library) (c : Config) (u : UserConfig) → Keeps (InMemory P) (show_cred_configs lib c u)
  unfolding show_cred_configs
  show_cred_configs-InMemory lib c u = search (handler_rules, show_user_configs-InMemory) depth 9

module _ ⦃env : Env⦄ where
  add_bulk_user-IsRouted : (name : Bytes) → Keeps (InMemory IsRouted) (add_bulk_user name)
  unfolding add_bulk_user
  add_bulk_user-IsRouted name =
      search (handler_rules, system_rules, set_config-InMemory, add_user-IsRouted) depth 9

  add_bulk-IsRouted :
      (fuel count next : ℕ) (prefix : Bytes)
      → Keeps (InMemory IsRouted) (add_bulk fuel count next prefix)
  unfolding add_bulk
  add_bulk-IsRouted zero count next prefix = search handler_rules
  add_bulk-IsRouted (suc fuel) zero next prefix = search handler_rules
  add_bulk-IsRouted (suc fuel) (suc count) next prefix =
      let later = add_bulk-IsRouted fuel in
      search (handler_rules, add_bulk_user-IsRouted, later) depth 9

module _ ⦃env : Env⦄ (lib : Library) (message_of : BadPassword → Bytes) (packages : Packages)
    (quiet : IsQuiet packages) where
  show_username-IsRouted :
      (u : UserConfig) → Keeps (InMemory IsRouted) (show_username lib message_of packages u)
  unfolding show_username
  show_username-IsRouted u = search handler_rules

  list_user-IsRouted :
      (u : UserConfig) → Keeps (InMemory IsRouted) (list_user lib message_of packages u)
  unfolding list_user
  list_user-IsRouted u = search (handler_rules, show_user_configs-InMemory) depth 9

  list_users-IsRouted :
      (c : Config) → Keeps (InMemory IsRouted) (list_users lib message_of packages c)
  unfolding list_users
  list_users-IsRouted c = search (handler_rules, show_username-IsRouted, list_user-IsRouted) depth 9

  remove_named-IsRouted :
      (name : Bytes) → Keeps (InMemory IsRouted) (remove_named lib message_of packages name)
  unfolding remove_named
  remove_named-IsRouted name =
      search
        (
          handler_rules, system_rules, socks_rules, run_socks_as-InMemory, set_config-InMemory,
          remove_user-IsRouted, update_warp-IsRouted,
        )
        depth 12

  remove_branch-IsRouted :
      (given : Bytes) → Keeps (InMemory IsRouted) (remove_branch lib message_of packages given)
  unfolding remove_branch
  remove_branch-IsRouted given =
      let ask = ask_username-IsRouted lib message_of packages quiet in
      search (handler_rules, ask, remove_named-IsRouted)

  pick_user-IsRouted :
      (given : Bytes) (c : Config)
      → Keeps (InMemory IsRouted) (pick_user lib message_of packages given c)
  unfolding pick_user
  pick_user-IsRouted given c = search handler_rules

  known_user-IsRouted :
      (name : Bytes) (c : Config)
      → Keeps (InMemory IsRouted) (known_user lib message_of packages name c)
  unfolding known_user
  known_user-IsRouted name c = search handler_rules

  ask_password-IsRouted :
      (args : Args) → Keeps (InMemory IsRouted) (ask_password lib message_of packages args)
  unfolding ask_password
  ask_password-IsRouted args =
      let check = check_password-IsRouted lib message_of packages quiet in
      search (handler_rules, as_user_error-InMemory, check) depth 9

  set_password-IsRouted :
      (u : UserConfig) → Keeps (InMemory IsRouted) (set_password lib message_of packages u)
  unfolding set_password
  set_password-IsRouted u =
      search
        (handler_rules, system_rules, set_config-InMemory, add_user-IsRouted, update_socks-IsRouted)
        depth 10

  offer_configs-IsRouted :
      (u : UserConfig) (c : Config)
      → Keeps (InMemory IsRouted) (offer_configs lib message_of packages u c)
  unfolding offer_configs
  offer_configs-IsRouted u c = search (handler_rules, show_user_configs-InMemory) depth 9

  edit_password-IsRouted :
      (args : Args) (given : Bytes)
      → Keeps (InMemory IsRouted) (edit_password lib message_of packages args given)
  unfolding edit_password
  edit_password-IsRouted args given =
      search
        (
          handler_rules, pick_user-IsRouted, known_user-IsRouted, ask_password-IsRouted,
          set_password-IsRouted, offer_configs-IsRouted,
        )
        depth 10

module _ ⦃env : Env⦄ (lib : Library) (message_of : Invalid → Bytes)
    (password_message : BadPassword → Bytes) (packages : Packages) (quiet : IsQuiet packages) where
  offer_bulk-IsRouted :
      (created : List UserConfig) (c : Config)
      → Keeps (InMemory IsRouted) (offer_bulk lib message_of password_message packages created c)
  unfolding offer_bulk
  offer_bulk-IsRouted created c = search (handler_rules, show_cred_configs-InMemory) depth 9

  finish_bulk-IsRouted :
      (created : List UserConfig)
      → Keeps (InMemory IsRouted) (finish_bulk lib message_of password_message packages created)
  unfolding finish_bulk
  finish_bulk-IsRouted created =
      search
        (
          handler_rules, update_socks-IsRouted, update_warp-IsRouted, show_cred-InMemory,
          offer_bulk-IsRouted,
        )
        depth 12

  bulk_add-IsRouted :
      (args : Args)
      → Keeps (InMemory IsRouted) (bulk_add lib message_of password_message packages args)
  unfolding bulk_add
  bulk_add-IsRouted args =
      search
        (
          handler_rules, as_user_error-InMemory, resolve_bulk_count-InMemory, ask_prefix-InMemory,
          check_prefix-InMemory, add_bulk-IsRouted, finish_bulk-IsRouted,
        )
        depth 10

  users_branch-IsRouted :
      (args : Args) (action : Bytes)
      → Keeps
          (InMemory IsRouted)
          (users_branch lib message_of password_message packages args action)
  unfolding users_branch
  users_branch-IsRouted args action =
      let create = create_user_interactive-IsRouted lib password_message packages quiet in
      let listed = list_users-IsRouted lib password_message packages quiet in
      let edited = edit_password-IsRouted lib password_message packages quiet in
      let removed = remove_branch-IsRouted lib password_message packages quiet in
      search
        (handler_rules, as_user_error-InMemory, create, listed, edited, removed, bulk_add-IsRouted)
        depth 10

  pub handle_system_users-IsRouted :
      (args : Args)
      → Keeps
          (InMemory IsRouted)
          (handle_system_users lib message_of password_message packages args)
  unfolding handle_system_users
  handle_system_users-IsRouted args = search (handler_rules, users_branch-IsRouted)
