-- ===== src/Handlers.antt =====
-- internal/handlers: what the handlers share, and `(*Config).Save` of internal/config/config.go.
pub mod Lifecycle
pub mod Remove
pub mod Router
pub mod Reachable
pub mod Routed
pub mod Invariant
pub mod Packages
pub mod Add
pub mod System
pub mod Users
pub mod Edit
pub mod Share
use slipgate.Prelude.{
  ℕ, ◌+◌, Bool, true, false, not, ◌&&◌, ◌||◌, List, [], ◌∷◌, ◌++◌, Option, none, some, ltb, leb,
  ◌==◌, if◌then◌else◌, Bytes, codes, bytes_eq,
}
use slipgate.Config.{TunnelConfig, RouteConfig, Config, is_empty, is_dns_tunnel}
use slipgate.Config.Store.{get_tunnel}
use slipgate.Host.{
  on_result, Action, Env, Error, Result, ok, err, Done, Channel, info, success, warning, failure,
  print, pure, raise, done, attempt, ignore, get_config, set_config, say, ◌>>=◌, ◌>>◌,
}
use slipgate.Host.Machine.{write_file, mkdir_all}
use slipgate.Host.Format.{quote}
use slipgate.Actions.{fail_because}

-- the part before the last `/`
unfoldable pub parent : Bytes → Option Bytes
parent [] = none
parent (c ∷ s) = elim (parent s) [
  | some d ↦ some (c ∷ d)
  | none ↦ if c == b'/' then some [] else none
]

-- filepath.Dir, for a path without `.`, `..` or `//`
unfoldable pub dir_of : Bytes → Bytes
dir_of path = elim (parent path) [ none ↦ codes "." | some d ↦ if is_empty d then codes "/" else d ]

abbrev pub default_config_file : Bytes
default_config_file = codes "/etc/slipgate/config.json"

-- the file of `Save`
unfoldable pub config_path : Config → Bytes
config_path c = if is_empty c.path then default_config_file else c.path

-- `tunnel %q …`
abbrev pub about_tunnel : Bytes → Bytes → Bytes
about_tunnel tag text = codes "tunnel " ++ (quote tag ++ text)

abbrev pub not_found : Bytes → Bytes
not_found tag = about_tunnel tag (codes " not found")

abbrev pub set_route : (RouteConfig → RouteConfig) → Config → Config
set_route f c = record c { route = f c.route }

-- for _, t := range cfg.Tunnels { if t.IsDNSTunnel() && t.Enabled { dnsTunnelCount++ } }
unfoldable pub count_dns : List TunnelConfig → ℕ
count_dns [] = 0
count_dns (t ∷ ts) = (if is_dns_tunnel t && t.enabled then 1 else 0) + count_dns ts

module _ ⦃env : Env⦄ where
  -- `SaveTo`
  unfoldable pub save_to : Config → Bytes → Action Done
  save_to c path = do mkdir_all (dir_of path); write_file path (env.marshal c ++ codes "\n")

  -- `Save`, of the configuration in memory
  unfoldable pub save : Action Done
  save = do c ← get_config; save_to c (config_path c)

  -- if err := cfg.Save(); err != nil { return NewError(id, "failed to save config", err) }
  unfoldable pub save_or_fail : Bytes → Action Done
  save_or_fail id = do
    saved ← attempt save
    on_result saved (λ _. done) (λ e. fail_because id (codes "failed to save config") e)
