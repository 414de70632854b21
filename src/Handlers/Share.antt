-- ===== src/Handlers/Share.antt =====
-- internal/handlers/tunnel_share.go and config_loadexport.go.
pub mod Frame
use slipgate.Prelude.{
  List, [], ◌∷◌, ◌++◌, Option, none, some, ◌==◌, if◌then◌else◌, Bytes, codes, bytes_eq, length,
}
use slipgate.Config.{TunnelConfig, BackendConfig, UserConfig, Config, is_empty, transport_dnstt}
use slipgate.Config.Store.{get_tunnel, get_backend, get_user}
use slipgate.Config.Validation.{Invalid, validate}
use slipgate.ClientConfig.{Library}
use slipgate.ClientConfig.Generate.{UriOptions, generate_uri}
use slipgate.Host.{
  on_option, Action, Env, plain, Done, success, print, pure, done, lift, get_config, say, ◌>>=◌,
  ◌>>◌,
}
use slipgate.Host.Machine.{read_file}
use slipgate.Actions.{Args, SelectOption, get_arg, fail, fail_with_hint, fail_because}
use slipgate.Actions.Ids.{tunnel_share, config_import, client_mode_options}
use slipgate.Prompt.{select}
use slipgate.Handlers.{save_to, default_config_file}
use slipgate.Handlers.Lifecycle.{or_fail}

-- the choices of a user's name, as both texts
unfoldable pub user_options : List UserConfig → List SelectOption
user_options [] = []
user_options (u ∷ us) = record { value = u.username; label = u.username } ∷ user_options us

-- with the credentials of a user that exists
unfoldable pub with_user : Option UserConfig → UriOptions → UriOptions
with_user none opts = opts
with_user (some u) opts = record opts { username = u.username; password = u.password }

module _ ⦃env : Env⦄ (lib : Library) where
  -- the client mode, which only a DNSTT tunnel has
  unfoldable pub ask_mode : Args → TunnelConfig → Action Bytes
  ask_mode args t =
      if bytes_eq t.transport transport_dnstt
      then (let mode = get_arg args (codes "mode") in
          if is_empty mode then select (codes "Client mode") client_mode_options else pure mode)
      else pure []

  -- whose credentials to embed
  unfoldable pub ask_user : Config → UriOptions → Action UriOptions
  ask_user c opts = if length c.users == 0 then pure opts else (do
    name ←
        select (codes "User")
          (record { value = []; label = codes "No credentials" } ∷ user_options c.users)
    pure (with_user (get_user c name) opts))

  unfoldable pub share : Args → Config → TunnelConfig → BackendConfig → Action Done
  share args c t b = do
    mode ← ask_mode args t
    opts ← ask_user c (record { client_mode = mode; username = []; password = [] })
    say print (generate_uri lib t (some b) opts)

  -- `handleTunnelShare`
  unfoldable pub handle_tunnel_share : Args → Action Done
  handle_tunnel_share args =
      let tag = get_arg args (codes "tag") in
      if is_empty tag
      then fail tunnel_share (codes "tunnel tag is required")
      else get_config >>= λ c.
          on_option (get_tunnel c tag)
            (fail_with_hint tunnel_share (codes "tunnel not found")
              (codes "Run 'slipgate tunnel status' to see available tunnels"))
            (λ t.
              on_option (get_backend c t.backend) (fail tunnel_share (codes "backend not found"))
                (λ b. share args c t b))

module _ ⦃env : Env⦄ where
  -- `handleConfigExport`; what JSON prints of a configuration is the library's
  unfoldable pub handle_config_export : Action Done
  handle_config_export = do c ← get_config; say print (env.marshal c)

  -- `newCfg.Validate()`; `message` is what the error prints
  unfoldable pub check_config : (Invalid → Bytes) → Config → Action Done
  check_config message c =
      on_option (validate c) (done)
        (λ e. fail_because config_import (codes "config validation failed") (plain (message e)))

  -- `handleConfigImport`, which leaves the configuration in memory
  unfoldable pub handle_config_import : (Invalid → Bytes) → Args → Action Done
  handle_config_import message args =
      let path = get_arg args (codes "path") in
      if is_empty path then fail config_import (codes "config file path is required") else (do
        data_ ← or_fail (read_file path) config_import (codes "failed to read file")
        c ← or_fail (lift (env.unmarshal data_)) config_import (codes "invalid config JSON")
        check_config message c
        or_fail (save_to c default_config_file) config_import (codes "failed to save config")
        say success (codes "Config imported from " ++ path))
