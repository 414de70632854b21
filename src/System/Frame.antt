-- ===== src/System/Frame.antt =====
-- internal/system leaves the configuration in memory alone.
use slipgate.Prelude.{ℕ, if◌then◌else◌, Bytes, List, [], ◌∷◌}
use slipgate.Config.{Config}
use slipgate.Host.{Env, Action, Done}
use slipgate.Host.Keeps.{Keeps, Keeps-done, Keeps-if, Keeps-bind}
use slipgate.Host.Frame.{InMemory, machine_rules}
use slipgate.System.SshConfig.{SshUpdate, leave, rewrite}
use slipgate.System.{
  run_loud, wrapped, user_exists, group_exists, ensure_group, append_block, is_active,
  reload_service, reload_first, apply_update, ensure_match_group, create_ssh_user, add_ssh_user,
  remove_ssh_user, generate_password,
}

module _ ⦃env : Env⦄ {P : Config → Type 0} where
  run_loud-InMemory : (args : List Bytes) → Keeps (InMemory P) (run_loud args)
  unfolding run_loud
  run_loud-InMemory args = search machine_rules

  wrapped-InMemory :
      (m : Action Done) (text : Bytes) → Keeps (InMemory P) m → Keeps (InMemory P) (wrapped m text)
  unfolding wrapped
  wrapped-InMemory m text k = search machine_rules

  user_exists-InMemory : (name : Bytes) → Keeps (InMemory P) (user_exists name)
  unfolding user_exists
  user_exists-InMemory name = search machine_rules

  group_exists-InMemory : (name : Bytes) → Keeps (InMemory P) (group_exists name)
  unfolding group_exists
  group_exists-InMemory name = search machine_rules

  ensure_group-InMemory : (name : Bytes) → Keeps (InMemory P) (ensure_group name)
  unfolding ensure_group
  ensure_group-InMemory name =
      search (machine_rules, group_exists-InMemory, wrapped-InMemory, run_loud-InMemory)

  append_block-InMemory : (content : Bytes) → Keeps (InMemory P) (append_block content)
  unfolding append_block
  append_block-InMemory content = search machine_rules

  reload_service-InMemory : (svc : Bytes) → Keeps (InMemory P) (reload_service svc)
  unfolding reload_service
  reload_service-InMemory svc = search (machine_rules, run_loud-InMemory)

  is_active-InMemory : (svc : Bytes) → Keeps (InMemory P) (is_active svc)
  unfolding is_active
  is_active-InMemory svc = search machine_rules

  reload_first-InMemory : (svcs : List Bytes) → Keeps (InMemory P) (reload_first svcs)
  unfolding reload_first
  reload_first-InMemory [] = Keeps-done
  reload_first-InMemory (svc ∷ svcs) =
      Keeps-bind (is_active svc)
        (λ active. if active then reload_service svc else reload_first svcs)
        (search (machine_rules, is_active-InMemory))
        (λ active.
          Keeps-if active (reload_service svc) (reload_first svcs)
            (λ _. reload_service-InMemory svc) (λ _. reload_first-InMemory svcs))

  apply_update-InMemory : (u : SshUpdate) → Keeps (InMemory P) (apply_update u)
  unfolding apply_update
  apply_update-InMemory leave = Keeps-done
  apply_update-InMemory (rewrite content changed) =
      search
        (
          machine_rules, append_block-InMemory, wrapped-InMemory, run_loud-InMemory,
          reload_first-InMemory,
        )
        depth 8

  ensure_match_group-InMemory : Keeps (InMemory P) ensure_match_group
  unfolding ensure_match_group
  ensure_match_group-InMemory = search (machine_rules, apply_update-InMemory)

  create_ssh_user-InMemory : (name : Bytes) → Keeps (InMemory P) (create_ssh_user name)
  unfolding create_ssh_user
  create_ssh_user-InMemory name =
      search (machine_rules, user_exists-InMemory, wrapped-InMemory, run_loud-InMemory)

  pub add_ssh_user-InMemory :
      (name password : Bytes) → Keeps (InMemory P) (add_ssh_user name password)
  unfolding add_ssh_user
  add_ssh_user-InMemory name password =
      search
        (
          machine_rules, ensure_group-InMemory, create_ssh_user-InMemory, wrapped-InMemory,
          ensure_match_group-InMemory,
        )
        depth 8

  pub remove_ssh_user-InMemory : (name : Bytes) → Keeps (InMemory P) (remove_ssh_user name)
  unfolding remove_ssh_user
  remove_ssh_user-InMemory name = search (machine_rules, run_loud-InMemory)

  pub generate_password-InMemory : (n : ℕ) → Keeps (InMemory P) (generate_password n)
  unfolding generate_password
  generate_password-InMemory n = search machine_rules

pub ruleset system_rules =
    (add_ssh_user-InMemory, remove_ssh_user-InMemory, generate_password-InMemory)
