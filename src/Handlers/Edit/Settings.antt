-- ===== src/Handlers/Edit/Settings.antt =====
-- The settings that internal/handlers/tunnel_edit.go asks for keep the state of the routing.
use slipgate.Prelude.{ℕ, ◌≡◌, Bool, Bytes}
use slipgate.Config.{TunnelConfig, Config}
use slipgate.Config.Validation.{Invalid}
use slipgate.Host.{Env}
use slipgate.Host.Machine.{stat}
use slipgate.Host.Keeps.{Keeps}
use slipgate.Host.Frame.{InMemory, set_config-InMemory}
use slipgate.Actions.{Args}
use slipgate.Keys.{Crypto}
use slipgate.Keys.Frame.{keys_rules}
use slipgate.Transport.Frame.{create_service-InMemory}
use slipgate.Handlers.Routed.{IsRouted}
use slipgate.Handlers.Invariant.{handler_rules}
use slipgate.Handlers.Edit.{
  Edit, assign_to, ask, rename_dir, check_new_tag, edit_text, edit_number, edit_domain, edit_keys,
  edit_dnstt,
}
use slipgate.Handlers.Edit.Handle.{
  put_vaydns, put_naive, on_vaydns, on_naive, edit_vaydns_mtu, edit_vaydns_keys, edit_record_type,
  edit_idle_timeout, edit_keep_alive, edit_client_id, edit_queue_size, edit_vaydns, edit_email,
  edit_decoy, edit_transport, recreate_service, finish_edit, pick_tag,
}
use slipgate.Handlers.Edit.Routed.{put_tunnel-IsRouted}

stat-InMemory : {P : Config → Type 0} (path : Bytes) → Keeps (InMemory P) (stat path)
unfolding stat
stat-InMemory path = search handler_rules

-- a setting of the tunnel that leaves its tag
assign_to-IsRouted :
    (old t : TunnelConfig) (message : Bytes)
    → t.tag ≡ old.tag
    → Keeps (InMemory IsRouted) (assign_to old t message)
unfolding assign_to
assign_to-IsRouted old t message e =
    let put = put_tunnel-IsRouted old.tag t e in
    search (handler_rules, set_config-InMemory, put) depth 9

module _ ⦃env : Env⦄ (crypto : Crypto) (message_of : Invalid → Bytes) where
  pub ask-InMemory :
      {P : Config → Type 0} (args : Args) (key label current : Bytes)
      → Keeps (InMemory P) (ask crypto message_of args key label current)
  unfolding ask
  ask-InMemory args key label current = search handler_rules

  pub rename_dir-InMemory :
      {P : Config → Type 0} (tag new_tag : Bytes)
      → Keeps (InMemory P) (rename_dir crypto message_of tag new_tag)
  unfolding rename_dir
  rename_dir-InMemory tag new_tag = search (handler_rules, stat-InMemory)

  pub check_new_tag-InMemory :
      {P : Config → Type 0} (new_tag : Bytes) (c : Config)
      → Keeps (InMemory P) (check_new_tag crypto message_of new_tag c)
  unfolding check_new_tag
  check_new_tag-InMemory new_tag c = search handler_rules

  edit_text-IsRouted :
      (args : Args) (key label current : Bytes) (keep : Bytes → Bool)
      (with_text : Bytes → TunnelConfig) (message : Bytes) (e : Edit)
      → ((v : Bytes) → (with_text v).tag ≡ e.tunnel.tag)
      → Keeps
          (InMemory IsRouted)
          (edit_text crypto message_of args key label current keep with_text message e)
  unfolding edit_text
  edit_text-IsRouted args key label current keep with_text message e same =
      search (handler_rules, ask-InMemory, assign_to-IsRouted, same) depth 9

  edit_number-IsRouted :
      (args : Args) (key label : Bytes) (shown current : ℕ) (with_number : ℕ → TunnelConfig)
      (message : Bytes) (e : Edit)
      → ((n : ℕ) → (with_number n).tag ≡ e.tunnel.tag)
      → Keeps
          (InMemory IsRouted)
          (edit_number crypto message_of args key label shown current with_number message e)
  unfolding edit_number
  edit_number-IsRouted args key label shown current with_number message e same =
      search (handler_rules, ask-InMemory, assign_to-IsRouted, same) depth 9

  edit_keys-IsRouted :
      (args : Args) (with_keys : Bytes → Bytes → TunnelConfig) (e : Edit)
      → ((path key : Bytes) → (with_keys path key).tag ≡ e.tunnel.tag)
      → Keeps (InMemory IsRouted) (edit_keys crypto message_of args with_keys e)
  unfolding edit_keys
  edit_keys-IsRouted args with_keys e same =
      search (handler_rules, keys_rules, ask-InMemory, assign_to-IsRouted, same) depth 10

  pub edit_domain-IsRouted :
      (args : Args) (e : Edit) → Keeps (InMemory IsRouted) (edit_domain crypto message_of args e)
  unfolding edit_domain
  edit_domain-IsRouted args e = search (handler_rules, edit_text-IsRouted)

  edit_dnstt-IsRouted :
      (args : Args) (e : Edit) → Keeps (InMemory IsRouted) (edit_dnstt crypto message_of args e)
  unfolding edit_dnstt
  edit_dnstt-IsRouted args e =
      search (handler_rules, edit_number-IsRouted, edit_keys-IsRouted) depth 9

  module _ (args : Args) (e : Edit) where
    edit_vaydns_mtu-IsRouted : Keeps (InMemory IsRouted) (edit_vaydns_mtu crypto message_of args e)
    unfolding edit_vaydns_mtu on_vaydns put_vaydns
    edit_vaydns_mtu-IsRouted = search (handler_rules, edit_number-IsRouted)

    edit_vaydns_keys-IsRouted :
        Keeps (InMemory IsRouted) (edit_vaydns_keys crypto message_of args e)
    unfolding edit_vaydns_keys on_vaydns put_vaydns
    edit_vaydns_keys-IsRouted = search (handler_rules, edit_keys-IsRouted)

    edit_record_type-IsRouted :
        Keeps (InMemory IsRouted) (edit_record_type crypto message_of args e)
    unfolding edit_record_type on_vaydns put_vaydns
    edit_record_type-IsRouted = search (handler_rules, edit_text-IsRouted)

    edit_idle_timeout-IsRouted :
        Keeps (InMemory IsRouted) (edit_idle_timeout crypto message_of args e)
    unfolding edit_idle_timeout on_vaydns put_vaydns
    edit_idle_timeout-IsRouted = search (handler_rules, edit_text-IsRouted)

    edit_keep_alive-IsRouted : Keeps (InMemory IsRouted) (edit_keep_alive crypto message_of args e)
    unfolding edit_keep_alive on_vaydns put_vaydns
    edit_keep_alive-IsRouted = search (handler_rules, edit_text-IsRouted)

    edit_client_id-IsRouted : Keeps (InMemory IsRouted) (edit_client_id crypto message_of args e)
    unfolding edit_client_id on_vaydns put_vaydns
    edit_client_id-IsRouted = search (handler_rules, edit_number-IsRouted)

    edit_queue_size-IsRouted : Keeps (InMemory IsRouted) (edit_queue_size crypto message_of args e)
    unfolding edit_queue_size on_vaydns put_vaydns
    edit_queue_size-IsRouted = search (handler_rules, edit_number-IsRouted)

    edit_email-IsRouted : Keeps (InMemory IsRouted) (edit_email crypto message_of args e)
    unfolding edit_email on_naive put_naive
    edit_email-IsRouted = search (handler_rules, edit_text-IsRouted)

    edit_decoy-IsRouted : Keeps (InMemory IsRouted) (edit_decoy crypto message_of args e)
    unfolding edit_decoy on_naive put_naive
    edit_decoy-IsRouted = search (handler_rules, edit_text-IsRouted)

  edit_vaydns-IsRouted :
      (args : Args) (e : Edit) → Keeps (InMemory IsRouted) (edit_vaydns crypto message_of args e)
  unfolding edit_vaydns
  edit_vaydns-IsRouted args e =
      search
        (
          handler_rules, edit_vaydns_mtu-IsRouted, edit_vaydns_keys-IsRouted,
          edit_record_type-IsRouted, edit_idle_timeout-IsRouted, edit_keep_alive-IsRouted,
          edit_client_id-IsRouted, edit_queue_size-IsRouted,
        )
        depth 10

  pub edit_transport-IsRouted :
      (args : Args) (e : Edit) → Keeps (InMemory IsRouted) (edit_transport crypto message_of args e)
  unfolding edit_transport
  edit_transport-IsRouted args e =
      search
        (
          handler_rules, edit_dnstt-IsRouted, edit_vaydns-IsRouted, edit_email-IsRouted,
          edit_decoy-IsRouted,
        )
        depth 9

  recreate_service-InMemory :
      {P : Config → Type 0} (t : TunnelConfig)
      → Keeps (InMemory P) (recreate_service crypto message_of t)
  unfolding recreate_service
  recreate_service-InMemory t = search (handler_rules, create_service-InMemory) depth 9

  pub finish_edit-IsRouted :
      (e : Edit) → Keeps (InMemory IsRouted) (finish_edit crypto message_of e)
  unfolding finish_edit
  finish_edit-IsRouted e = search (handler_rules, recreate_service-InMemory) depth 9

  pub pick_tag-InMemory :
      {P : Config → Type 0} (args : Args) (c : Config)
      → Keeps (InMemory P) (pick_tag crypto message_of args c)
  unfolding pick_tag
  pick_tag-InMemory args c = search handler_rules
