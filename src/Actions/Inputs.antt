-- ===== src/Actions/Inputs.antt =====
-- The actions that router.go, system.go and tunnel.go of internal/actions register.
use slipgate.Prelude.{Bool, true, false, List, [], ◌∷◌, Bytes, codes}
use slipgate.Actions.{SelectOption}
use slipgate.Actions.Ids.{
  tunnel_add, tunnel_remove, tunnel_start, tunnel_stop, tunnel_share, tunnel_status, tunnel_logs,
  tunnel_edit, router_status, router_mode, router_switch, system_install, system_uninstall,
  system_update, system_restart, system_users, system_stats, system_diag, system_mtu, quick_wizard,
  warp_toggle, config_export, config_import, transport_options, backend_options,
  router_mode_options,
}

-- `InputField`, without the validator and the description, which no action sets
pub record InputField : Type 0 where
  pub key : Bytes
  pub label : Bytes
  pub required : Bool
  pub default : Bytes
  pub options : List SelectOption
  pub depends_on : Bytes
  pub depends_on_values : List Bytes
  pub cli_only : Bool

-- `Action`, without the handler, which `Dispatch` finds by the identifier
pub record Spec : Type 0 where
  pub id : Bytes
  pub name : Bytes
  pub category : Bytes
  pub inputs : List InputField

abbrev field :
    Bytes → Bytes → Bool → Bytes → List SelectOption → Bytes → List Bytes → Bool → InputField
field key label required default options depends_on depends_on_values cli_only = record {
  key = key;
  label = label;
  required = required;
  default = default;
  options = options;
  depends_on = depends_on;
  depends_on_values = depends_on_values;
  cli_only = cli_only;
}

-- a field with no default, no choices and no dependency
abbrev simple : Bytes → Bytes → Bool → InputField
simple key label required = field key label required [] [] [] [] false

abbrev needs : Bytes → Bytes → Bytes → List Bytes → InputField
needs key label other values = field key label false [] [] other values false

abbrev flag : Bytes → Bytes → InputField
flag key label = field key label false [] [] [] [] true

abbrev spec : Bytes → Bytes → Bytes → List InputField → Spec
spec id name category inputs = record { id = id; name = name; category = category; inputs = inputs }

-- the actions of router.go
abbrev pub router_actions : List Spec
router_actions =
    spec router_status (codes "Router Status") (codes "router") []
    ∷ spec router_mode (codes "Set Router Mode") (codes "router")
        (field (codes "mode") (codes "Mode") true [] router_mode_options [] [] false ∷ [])
    ∷ spec router_switch (codes "Switch Active Tunnel") (codes "router")
        (simple (codes "tag") (codes "Tunnel tag") true ∷ [])
    ∷ []

-- the actions of system.go
abbrev pub system_actions : List Spec
system_actions =
    spec system_install (codes "Install") (codes "system") []
    ∷ spec system_uninstall (codes "Uninstall") (codes "system") []
    ∷ spec system_update (codes "Update") (codes "system") []
    ∷ spec system_restart (codes "Restart") (codes "system") []
    ∷ spec system_users (codes "Users") (codes "system") (
        field (codes "action") (codes "Action") true []
          ((record { value = codes "add"; label = codes "Add user" })
            ∷ (record {
              value = codes "bulk_add";
              label = codes "Add multiple users (random creds)";
            })
            ∷ (record { value = codes "edit_password"; label = codes "Edit user password" })
            ∷ (record { value = codes "remove"; label = codes "Remove user" })
            ∷ (record { value = codes "list"; label = codes "List users" })
            ∷ [])
          [] [] false
        ∷ needs (codes "username") (codes "Username") (codes "action")
            (codes "add" ∷ codes "edit_password" ∷ codes "remove" ∷ [])
        ∷ needs (codes "password") (codes "New password (leave blank to generate)") (codes "action")
            (codes "edit_password" ∷ [])
        ∷ needs (codes "count") (codes "How many users") (codes "action") (codes "bulk_add" ∷ [])
        ∷ needs (codes "prefix") (codes "Username prefix") (codes "action") (codes "bulk_add" ∷ [])
        ∷ [])
    ∷ spec system_stats (codes "Stats") (codes "system") []
    ∷ spec system_diag (codes "Diagnostics") (codes "system") []
    ∷ spec system_mtu (codes "Set MTU (DNSTT/NoizDNS/VayDNS)") (codes "system")
        (simple (codes "mtu") (codes "MTU") false ∷ [])
    ∷ spec quick_wizard (codes "Quick Wizard") (codes "system") []
    ∷ spec warp_toggle (codes "WARP") (codes "system") []
    ∷ spec config_export (codes "Export Config") (codes "config") []
    ∷ spec config_import (codes "Import Config") (codes "config")
        (simple (codes "path") (codes "Config file path") true ∷ [])
    ∷ []

-- the actions of tunnel.go
abbrev pub tunnel_actions : List Spec
tunnel_actions =
    spec tunnel_add (codes "Add Tunnel") (codes "tunnel") (
      field (codes "transport") (codes "Transport") true [] transport_options [] [] false
      ∷ field (codes "backend") (codes "Backend") true [] backend_options (codes "transport")
          (codes "dnstt" ∷ codes "slipstream" ∷ codes "vaydns" ∷ codes "naive" ∷ []) false
      ∷ simple (codes "tag") (codes "Tag (unique name)") true
      ∷ field (codes "domain") (codes "Domain") true [] [] (codes "transport")
          (codes "dnstt" ∷ codes "slipstream" ∷ codes "vaydns" ∷ codes "naive" ∷ []) false
      ∷ needs (codes "private-key") (codes "Private key (hex)") (codes "transport")
          (codes "dnstt" ∷ codes "vaydns" ∷ [])
      ∷ needs (codes "public-key") (codes "Public key (hex)") (codes "transport")
          (codes "dnstt" ∷ codes "vaydns" ∷ [])
      ∷ needs (codes "record-type") (codes "DNS record type") (codes "transport")
          (codes "vaydns" ∷ [])
      ∷ needs (codes "idle-timeout") (codes "Idle timeout (VayDNS)") (codes "transport")
          (codes "vaydns" ∷ [])
      ∷ needs (codes "keep-alive") (codes "Keep alive interval (VayDNS)") (codes "transport")
          (codes "vaydns" ∷ [])
      ∷ needs (codes "clientid-size") (codes "Client ID size (VayDNS)") (codes "transport")
          (codes "vaydns" ∷ [])
      ∷ needs (codes "queue-size") (codes "Queue size (VayDNS)") (codes "transport")
          (codes "vaydns" ∷ [])
      ∷ needs (codes "port") (codes "Target UDP port") (codes "transport") (codes "external" ∷ [])
      ∷ needs (codes "email") (codes "Email (for Let's Encrypt)") (codes "transport")
          (codes "naive" ∷ [])
      ∷ needs (codes "decoy-url") (codes "Decoy URL") (codes "transport") (codes "naive" ∷ [])
      ∷ [])
    ∷ spec tunnel_remove (codes "Remove Tunnel") (codes "tunnel")
        (simple (codes "tag") (codes "Tunnel tag") true ∷ [])
    ∷ spec tunnel_start (codes "Start Tunnel") (codes "tunnel")
        (simple (codes "tag") (codes "Tunnel tag") true ∷ [])
    ∷ spec tunnel_stop (codes "Stop Tunnel") (codes "tunnel")
        (simple (codes "tag") (codes "Tunnel tag") true ∷ [])
    ∷ spec tunnel_share (codes "Share Tunnel") (codes "tunnel")
        (simple (codes "tag") (codes "Tunnel tag") true ∷ [])
    ∷ spec tunnel_status (codes "Tunnel Status") (codes "tunnel")
        (simple (codes "tag") (codes "Tunnel tag (blank for all)") false ∷ [])
    ∷ spec tunnel_logs (codes "Tunnel Logs") (codes "tunnel") (
        simple (codes "tag") (codes "Tunnel tag") true
        ∷ field (codes "lines") (codes "Number of lines") false (codes "50") [] [] [] false
        ∷ [])
    ∷ spec tunnel_edit (codes "Edit Tunnel") (codes "tunnel") (
        flag (codes "tag") (codes "Tunnel tag")
        ∷ flag (codes "new-tag") (codes "New tag name")
        ∷ flag (codes "domain") (codes "Domain")
        ∷ flag (codes "mtu") (codes "MTU")
        ∷ flag (codes "private-key") (codes "Private key (hex)")
        ∷ flag (codes "public-key") (codes "Public key (hex)")
        ∷ flag (codes "record-type") (codes "DNS record type (VayDNS)")
        ∷ flag (codes "idle-timeout") (codes "Idle timeout (VayDNS)")
        ∷ flag (codes "keep-alive") (codes "Keep alive interval (VayDNS)")
        ∷ flag (codes "clientid-size") (codes "Client ID size (VayDNS)")
        ∷ flag (codes "queue-size") (codes "Queue size (VayDNS)")
        ∷ flag (codes "email") (codes "Email (Let's Encrypt)")
        ∷ flag (codes "decoy-url") (codes "Decoy URL")
        ∷ [])
    ∷ []
