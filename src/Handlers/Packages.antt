-- ===== src/Handlers/Packages.antt =====
-- What the handlers of internal/handlers take from internal/binary, internal/certs and
-- internal/warp, which are not modelled: any actions that leave the configuration in memory alone.
use slipgate.Prelude.{◌≡◌, Bytes}
use slipgate.Config.{Config}
use slipgate.Host.{World, Action, Done}
use slipgate.Host.Keeps.{Keeps}
use slipgate.Host.Frame.{InMemory}

pub record Packages : Type 0 where
  -- `binary.EnsureInstalled`, on the name of a binary
  pub ensure_installed : Bytes → Action Done
  -- `certs.GenerateSelfSigned`
  pub generate_self_signed : Bytes → Bytes → Bytes → Action Done
  -- `warp.RefreshRouting`
  pub refresh_routing : Config → Action Done

-- They are given the configuration to read.
pub record IsQuiet (packages : Packages) : Type 0 where
  pub ensure_installed_quiet :
      (name : Bytes) (w : World) → (packages.ensure_installed name w).1.config ≡ w.config
  pub generate_self_signed_quiet :
      (cert key host : Bytes) (w : World)
      → (packages.generate_self_signed cert key host w).1.config ≡ w.config
  pub refresh_routing_quiet :
      (c : Config) (w : World) → (packages.refresh_routing c w).1.config ≡ w.config

module _ {P : Config → Type 0} (packages : Packages) (quiet : IsQuiet packages) where
  pub ensure_installed-InMemory :
      (name : Bytes) → Keeps (InMemory P) (packages.ensure_installed name)
  ensure_installed-InMemory name = record {
    at = λ w h. record { holds = rw (quiet.ensure_installed_quiet name w) h.holds };
  }

  pub generate_self_signed-InMemory :
      (cert key host : Bytes) → Keeps (InMemory P) (packages.generate_self_signed cert key host)
  generate_self_signed-InMemory cert key host = record {
    at = λ w h. record { holds = rw (quiet.generate_self_signed_quiet cert key host w) h.holds };
  }

  pub refresh_routing-InMemory : (c : Config) → Keeps (InMemory P) (packages.refresh_routing c)
  refresh_routing-InMemory c = record {
    at = λ w h. record { holds = rw (quiet.refresh_routing_quiet c w) h.holds };
  }
