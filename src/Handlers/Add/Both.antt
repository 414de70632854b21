-- ===== src/Handlers/Add/Both.antt =====
-- internal/handlers/tunnel_add.go: the handler, which adds one tunnel, or one for each backend.
use slipgate.Prelude.{
  Bool, true, false, not, ◌&&◌, List, [], ◌∷◌, ◌++◌, none, some, ltb, leb, ◌==◌, if◌then◌else◌,
  Bytes, codes, bytes_eq, length, decimal, split, join,
}
use slipgate.Config.{
  Config, is_empty, one_of, transport_slipstream, transport_vaydns, transport_naive,
  transport_stuntls, transport_ssh, transport_socks, transport_external, backend_socks, backend_ssh,
}
use slipgate.Config.Store.{get_tunnel}
use slipgate.Config.Validation.{Invalid, BadPassword}
use slipgate.ClientConfig.{Library}
use slipgate.Host.{
  Action, Env, Done, success, warning, print, pure, done, attempt, on_result, get_config, say,
  ◌>>=◌, ◌>>◌, error_text,
}
use slipgate.Actions.{Args, get_arg, fail}
use slipgate.Actions.Ids.{tunnel_add, transport_options, backend_options}
use slipgate.Prompt.{string, select, confirm, confirm_yes}
use slipgate.Transport.{tunnel_dir}
use slipgate.Keys.{Crypto}
use slipgate.Handlers.Packages.{Packages}
use slipgate.Handlers.Users.{warn, create_user_interactive}
use slipgate.Handlers.Add.{add_single_tunnel, arg_or}

-- the parts of a domain that are not empty: `splitDomain`
unfoldable pub filled : List Bytes → List Bytes
filled [] = []
filled (p ∷ ps) = let rest = filled ps in if is_empty p then rest else p ∷ rest

-- `baseDomain`: without the first part of three or more
unfoldable pub base_domain : Bytes → Bytes
base_domain domain = elim (filled (split domain b'.')) [
  | [] ↦ domain
  | p ∷ ps ↦ if leb 2 (length ps) then join ps (codes ".") else domain
]

unfoldable pub is_implicit : Bytes → Bool
is_implicit transport = one_of transport (transport_ssh ∷ transport_socks ∷ transport_stuntls ∷ [])

-- the backend that a transport decides, or the one that is given
unfoldable pub decided_backend : Bytes → Bytes → Bytes
decided_backend transport given =
    if bytes_eq transport transport_external
    then codes "external"
    else if bytes_eq transport transport_socks
    then backend_socks
    else if one_of transport (transport_ssh ∷ transport_stuntls ∷ [])
    then backend_ssh
    else given

-- the domain that is proposed for the tunnel with the SSH backend
unfoldable pub ssh_hint : Bytes → Bytes → Bytes
ssh_hint transport domain =
    (if bytes_eq transport transport_slipstream
      then codes "ss."
      else if bytes_eq transport transport_vaydns
      then codes "vs."
      else codes "ts.")
    ++ base_domain domain

-- what was added, what failed, and the directory with the keys to share
pub record Outcome : Type 0 where
  pub succeeded : List Bytes
  pub failed : List Bytes
  pub shared : Bytes

unfoldable pub with_success : Bytes → Outcome → Outcome
with_success tag o = record o {
  succeeded = o.succeeded ++ (tag ∷ []);
  shared = if is_empty o.shared then tunnel_dir tag else o.shared;
}

unfoldable pub with_failure : Bytes → Outcome → Outcome
with_failure tag o = record o { failed = o.failed ++ (tag ∷ []) }

-- the loop of `tunnelsNeedUser`
unfoldable pub needs_user : Config → List Bytes → Bool
needs_user c [] = false
needs_user c (tag ∷ tags) =
    let rest = needs_user c tags in
    elim (get_tunnel c tag) [
      | none ↦ rest
      | some t ↦ if one_of t.backend (backend_ssh ∷ backend_socks ∷ []) then true else rest
    ]

module _ ⦃env : Env⦄ (crypto : Crypto) (message_of : Invalid → Bytes) (packages : Packages) where
  -- the domain of one of the tunnels; with both backends, the one over SSH has its own
  unfoldable pub ask_domain : Bytes → Bool → Bytes → Bytes → Bytes → Action Bytes
  ask_domain transport both backend tag domain =
      if both && bytes_eq backend backend_ssh && not (bytes_eq transport transport_naive)
      then string (codes "Domain for " ++ tag) (ssh_hint transport domain)
      else pure domain

  -- one round of the loop over the backends
  unfoldable pub add_for : Args → Bytes → Bool → Bytes → Bytes → Bytes → Outcome → Action Outcome
  add_for args transport both tag domain backend o = do
    let own_tag = if both then tag ++ (codes "-" ++ backend) else tag
    own_domain ← ask_domain transport both backend own_tag domain
    r ← attempt (
        add_single_tunnel crypto message_of packages args transport backend own_tag own_domain
          o.shared)
    on_result r (λ _. pure (with_success own_tag o))
        (λ e.
          say warning (codes "Failed to add " ++ (own_tag ++ (codes ": " ++ error_text e)))
          >> pure (with_failure own_tag o))

  unfoldable pub add_each : Args → Bytes → Bytes → Bytes → Bytes → Action Outcome
  add_each args transport backend tag domain =
      let none_yet : Outcome = record { succeeded = []; failed = []; shared = [] } in
      if bytes_eq backend (codes "both")
      then (add_for args transport true tag domain backend_socks none_yet
          >>= add_for args transport true tag domain backend_ssh)
      else add_for args transport false tag domain backend none_yet

  -- the summary
  unfoldable pub summarise : Outcome → Action Done
  summarise o = do
    say print []
    if length o.failed == 0
        then say success (
            codes "All " ++ (decimal (length o.succeeded) ++ codes " tunnel(s) added successfully"))
        else if length o.succeeded == 0
        then fail tunnel_add
            (codes "all " ++ (decimal (length o.failed) ++ codes " tunnel(s) failed to add"))
        else say warning (
            decimal (length o.succeeded)
            ++ (codes " succeeded, " ++ (decimal (length o.failed) ++ codes " failed")))

module _ ⦃env : Env⦄ (lib : Library) (password_message : BadPassword → Bytes)
    (packages : Packages) where
  -- `if err == nil && create`
  unfoldable pub offer_user : Config → Action Done
  offer_user c = do
    say print []
    wanted ← attempt (
        if length c.users == 0
        then confirm_yes (codes "Create a user now?")
        else confirm (codes "Create another user now?"))
    on_result wanted
        (λ yes.
          if yes
          then warn (create_user_interactive lib password_message packages [])
              (codes "User creation failed: ")
          else done)
        (λ e. done)

module _ ⦃env : Env⦄ (lib : Library) (crypto : Crypto) (message_of : Invalid → Bytes)
    (password_message : BadPassword → Bytes) (packages : Packages) where
  -- the fields that are given or asked for, one after another
  unfoldable pub ask_backend : Args → Bytes → Action Bytes
  ask_backend args transport =
      let backend = decided_backend transport (get_arg args (codes "backend")) in
      if is_empty backend then select (codes "Backend") backend_options else pure backend

  unfoldable pub ask_first_domain : Args → Bytes → Action Bytes
  ask_first_domain args transport =
      let domain = get_arg args (codes "domain") in
      if not (is_implicit transport) && is_empty domain
      then string (codes "Domain") []
      else pure domain

  unfoldable pub finish_add : Outcome → Action Done
  finish_add o = do
    summarise crypto message_of packages o
    c ← get_config
    if ltb 0 (length o.succeeded) && needs_user c o.succeeded
        then offer_user lib password_message packages c
        else done

  -- `handleTunnelAdd`
  unfoldable pub handle_tunnel_add : Args → Action Done
  handle_tunnel_add args = do
    transport ←
        arg_or crypto message_of packages args (codes "transport")
          (select (codes "Transport") transport_options)
    backend ← ask_backend args transport
    tag ←
        arg_or crypto message_of packages args (codes "tag") (string (codes "Tag (unique name)") [])
    domain ← ask_first_domain args transport
    o ← add_each crypto message_of packages args transport backend tag domain
    finish_add o
