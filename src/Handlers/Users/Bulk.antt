-- ===== src/Handlers/Users/Bulk.antt =====
-- internal/handlers/system_sshusers.go: many users at once.
use slipgate.Prelude.{
  ℕ, zero, suc, ◌+◌, List, [], ◌∷◌, ◌++◌, none, some, ltb, ◌==◌, if◌then◌else◌, Bytes, codes,
  bytes_eq, trim_space, length, decimal, has_prefix, drop, is_some,
}
use slipgate.Config.{UserConfig, Config, is_empty}
use slipgate.Config.Store.{get_user, add_user}
use slipgate.Config.Validation.{Invalid, BadPassword, validate_tag}
use slipgate.ClientConfig.{Library}
use slipgate.Host.{
  Action, Env, plain, Done, info, success, warning, print, pure, raise, done, attempt, each,
  on_option, on_result, get_config, set_config, say, ◌>>=◌, ◌>>◌, error_text,
}
use slipgate.Host.Format.{atoi}
use slipgate.Actions.{Args, SelectOption, get_arg, fail}
use slipgate.Actions.Ids.{system_users}
use slipgate.Prompt.{string, select, confirm}
use slipgate.System.{add_ssh_user, generate_password}
use slipgate.Handlers.{save_or_fail}
use slipgate.Handlers.Packages.{Packages}
use slipgate.Handlers.Users.{
  as_user_error, update_socks, update_warp, show_user_configs, list_users, create_user_interactive,
  remove_branch, edit_password,
}

-- the number behind the prefix in a user's name, or 0
unfoldable pub name_index : Bytes → UserConfig → ℕ
name_index prefix u =
    if has_prefix u.username prefix
    then elim (atoi (drop (length prefix) u.username)) [ none ↦ 0 | some n ↦ n ]
    else 0

-- the loop of `nextUsernameIndex`
unfoldable pub highest_index : Bytes → List UserConfig → ℕ → ℕ
highest_index prefix [] highest = highest
highest_index prefix (u ∷ us) highest =
    highest_index prefix us
      (if ltb highest (name_index prefix u) then name_index prefix u else highest)

-- `nextUsernameIndex`
unfoldable pub next_username_index : Config → Bytes → ℕ
next_username_index c prefix = highest_index prefix c.users 0 + 1

abbrev bulk_add_max : ℕ
bulk_add_max = 500

module _ ⦃env : Env⦄ where
  -- `resolveBulkCount`
  unfoldable pub resolve_bulk_count : Args → Action ℕ
  resolve_bulk_count args = do
    let given = trim_space (get_arg args (codes "count"))
    raw ←
        (if is_empty given
          then string (codes "How many users to create") (codes "10")
          else pure given)
    on_option (atoi (trim_space raw)) (raise (plain (codes "count must be a positive integer")))
        (λ n.
          if n == 0
          then raise (plain (codes "count must be a positive integer"))
          else if ltb bulk_add_max n
          then raise (plain (codes "count cannot exceed 500"))
          else pure n)

  unfoldable pub ask_prefix : Args → Action Bytes
  ask_prefix args = do
    let given = trim_space (get_arg args (codes "prefix"))
    raw ← (if is_empty given then string (codes "Username prefix") (codes "user") else pure given)
    let prefix = trim_space raw
    pure (if is_empty prefix then codes "user" else prefix)

  -- one user with a password of its own; a failure is skipped
  unfoldable pub add_bulk_user : Bytes → Action (List UserConfig)
  add_bulk_user name = do
    password ← generate_password 16
    made ← attempt (add_ssh_user name password)
    on_result made
        (λ _.
          let u : UserConfig = record { username = name; password = password } in
          set_config (λ c. add_user c u) >> pure (u ∷ []))
        (λ e.
          say warning (
            codes "failed to create "
            ++ (name ++ (codes ": " ++ (error_text e ++ codes " (skipping)"))))
          >> pure [])

  -- the loop over the count: `next` is the index of the next name; the rounds that find a name
  -- taken are counted by the fuel alone
  unfoldable pub add_bulk : ℕ → ℕ → ℕ → Bytes → Action (List UserConfig)
  add_bulk zero count next prefix = pure []
  add_bulk (suc fuel) zero next prefix = pure []
  add_bulk (suc fuel) (suc count) next prefix = do
    c ← get_config
    let name = prefix ++ decimal next
    if is_some (get_user c name) then add_bulk fuel (suc count) (next + 1) prefix else (do
      first ← add_bulk_user name
      rest ← add_bulk fuel count (next + 1) prefix
      pure (first ++ rest))

  unfoldable pub check_prefix : (Invalid → Bytes) → Bytes → Action Done
  check_prefix message_of prefix =
      on_option (validate_tag prefix) done
        (λ e. fail system_users (codes "prefix " ++ message_of e))

unfoldable pub show_cred : UserConfig → Action Done
show_cred u = say print (codes "  " ++ (u.username ++ (codes " : " ++ u.password)))

unfoldable pub show_cred_configs : Library → Config → UserConfig → Action Done
show_cred_configs lib c u = do
  say print []
  say print (
      226
      ∷ 148
      ∷ 128
      ∷ 226
      ∷ 148
      ∷ 128
      ∷ (codes " " ++ (u.username ++ (codes " " ++ (226 ∷ 148 ∷ 128 ∷ 226 ∷ 148 ∷ 128 ∷ [])))))
  show_user_configs lib c u

module _ ⦃env : Env⦄ (lib : Library) (message_of : Invalid → Bytes)
    (password_message : BadPassword → Bytes) (packages : Packages) where
  unfoldable pub offer_bulk : List UserConfig → Config → Action Done
  offer_bulk created c = if length c.tunnels == 0 then done else (do
    shown ← attempt (confirm (codes "Show tunnel configs for each user?"))
    on_result shown (λ yes. if yes then each (show_cred_configs lib c) created else done)
        (λ e. done))

  -- once the users are made: the file first, then the proxy and the routing
  unfoldable pub finish_bulk : List UserConfig → Action Done
  finish_bulk created =
      if length created == 0 then fail system_users (codes "no users were created") else (do
        save_or_fail system_users
        update_socks lib password_message packages
        update_warp lib password_message packages
        say success (codes "Created " ++ (decimal (length created) ++ codes " users"))
        say print []
        each show_cred created
        say print []
        c ← get_config
        offer_bulk created c)

  -- the branch "bulk_add"; the names that can be taken are those of the users there are
  unfoldable pub bulk_add : Args → Action Done
  bulk_add args = do
    count ← as_user_error (resolve_bulk_count args)
    prefix ← ask_prefix args
    check_prefix message_of prefix
    c ← get_config
    created ←
        add_bulk (count + (count + length c.users)) count (next_username_index c prefix) prefix
    finish_bulk created

  -- switch action
  unfoldable pub users_branch : Args → Bytes → Action Done
  users_branch args action =
      if bytes_eq action (codes "list")
      then (get_config >>= λ c.
          if length c.users == 0
          then say info (codes "No users configured. Run 'slipgate users add' to create one.")
          else list_users lib password_message packages c)
      else if bytes_eq action (codes "add")
      then as_user_error
          (create_user_interactive lib password_message packages (get_arg args (codes "username")))
      else if bytes_eq action (codes "bulk_add")
      then bulk_add args
      else if bytes_eq action (codes "edit_password")
      then edit_password lib password_message packages args (get_arg args (codes "username"))
      else if bytes_eq action (codes "remove")
      then remove_branch lib password_message packages (get_arg args (codes "username"))
      else done

  abbrev user_actions : List SelectOption
  user_actions =
      record { value = codes "add"; label = codes "Add user" }
      ∷ record { value = codes "bulk_add"; label = codes "Add multiple users (random creds)" }
      ∷ record { value = codes "edit_password"; label = codes "Edit user password" }
      ∷ record { value = codes "remove"; label = codes "Remove user" }
      ∷ record { value = codes "list"; label = codes "List users & configs" }
      ∷ []

  -- `handleSystemUsers`
  unfoldable pub handle_system_users : Args → Action Done
  handle_system_users args =
      let action = get_arg args (codes "action") in
      if is_empty action
      then (select (codes "Action") user_actions >>= users_branch args)
      else users_branch args action
