-- ===== src/Handlers/Edit/Handle.antt =====
-- internal/handlers/tunnel_edit.go: the settings of a VayDNS and of a NaiveProxy tunnel, and the
-- handler.
use slipgate.Prelude.{
  Bool, not, ◌||◌, List, [], ◌∷◌, ◌++◌, some, ◌==◌, if◌then◌else◌, Bytes, codes, bytes_eq, length,
}
use slipgate.Config.{
  TunnelConfig, VayDnsConfig, NaiveConfig, Config, is_empty, is_direct_transport, transport_dnstt,
  transport_vaydns, transport_naive, resolved_idle_timeout, resolved_keep_alive,
  resolved_client_id_size,
}
use slipgate.Config.Store.{get_tunnel}
use slipgate.Config.Validation.{Invalid}
use slipgate.Host.{
  Action, Env, Done, info, success, print, pure, done, ignore, on_option, get_config, say, ◌>>=◌,
  ◌>>◌,
}
use slipgate.Host.Format.{quote}
use slipgate.Actions.{Args, SelectOption, get_arg, fail}
use slipgate.Actions.Ids.{tunnel_edit}
use slipgate.Prompt.{select}
use slipgate.Service.{tunnel_service_name, stop}
use slipgate.Transport.{or_else}
use slipgate.Transport.Create.{create_service}
use slipgate.Keys.{Crypto}
use slipgate.Handlers.{not_found, save_or_fail}
use slipgate.Handlers.Lifecycle.{or_fail}
use slipgate.Handlers.Edit.{
  Edit, edit_tag, edit_text, edit_number, edit_domain, edit_keys, edit_dnstt,
}

-- fmt.Sprintf("%s (%s/%s)", t.Tag, t.Transport, t.Backend)
unfoldable pub tunnel_label : TunnelConfig → Bytes
tunnel_label t = t.tag ++ (codes " (" ++ (t.transport ++ (codes "/" ++ (t.backend ++ codes ")"))))

unfoldable pub tunnel_options : List TunnelConfig → List SelectOption
tunnel_options [] = []
tunnel_options (t ∷ ts) = record { value = t.tag; label = tunnel_label t } ∷ tunnel_options ts

-- an empty answer, or the value that is there
unfoldable pub is_kept : Bytes → Bytes → Bool
is_kept current v = is_empty v || bytes_eq v current

unfoldable pub put_vaydns : TunnelConfig → VayDnsConfig → TunnelConfig
put_vaydns t v = record t { vaydns = some v }

unfoldable pub put_naive : TunnelConfig → NaiveConfig → TunnelConfig
put_naive t n = record t { naive = some n }

-- tunnel.VayDNS and tunnel.Naive, which do not become nil
unfoldable pub on_vaydns : Edit → (VayDnsConfig → Action Edit) → Action Edit
on_vaydns e f = on_option e.tunnel.vaydns (pure e) f

unfoldable pub on_naive : Edit → (NaiveConfig → Action Edit) → Action Edit
on_naive e f = on_option e.tunnel.naive (pure e) f

module _ ⦃env : Env⦄ (crypto : Crypto) (message_of : Invalid → Bytes) where
  unfoldable pub edit_vaydns_mtu : Args → Edit → Action Edit
  edit_vaydns_mtu args e = on_vaydns e (λ v.
      edit_number crypto message_of args (codes "mtu") (codes "MTU") v.mtu v.mtu
        (λ n. put_vaydns e.tunnel (record v { mtu = n })) (codes "MTU set to ") e)

  unfoldable pub edit_vaydns_keys : Args → Edit → Action Edit
  edit_vaydns_keys args e = on_vaydns e (λ v.
      edit_keys crypto message_of args
        (λ path key. put_vaydns e.tunnel (record v { private_key = path; public_key = key })) e)

  unfoldable pub edit_record_type : Args → Edit → Action Edit
  edit_record_type args e = on_vaydns e (λ v.
      edit_text crypto message_of args (codes "record-type")
        (codes "DNS record type (txt, cname, a, aaaa, mx, ns, srv, null, caa)")
        (or_else v.record_type (codes "txt")) (is_kept v.record_type)
        (λ s. put_vaydns e.tunnel (record v { record_type = s })) (codes "Record type set to ") e)

  unfoldable pub edit_idle_timeout : Args → Edit → Action Edit
  edit_idle_timeout args e = on_vaydns e (λ v.
      edit_text crypto message_of args (codes "idle-timeout") (codes "Idle timeout")
        (resolved_idle_timeout (some v)) (is_kept v.idle_timeout)
        (λ s. put_vaydns e.tunnel (record v { idle_timeout = s })) (codes "Idle timeout set to ") e)

  unfoldable pub edit_keep_alive : Args → Edit → Action Edit
  edit_keep_alive args e = on_vaydns e (λ v.
      edit_text crypto message_of args (codes "keep-alive") (codes "Keep alive")
        (resolved_keep_alive (some v)) (is_kept v.keep_alive)
        (λ s. put_vaydns e.tunnel (record v { keep_alive = s })) (codes "Keep alive set to ") e)

  unfoldable pub edit_client_id : Args → Edit → Action Edit
  edit_client_id args e = on_vaydns e (λ v.
      edit_number crypto message_of args (codes "clientid-size") (codes "Client ID size")
        (resolved_client_id_size (some v)) v.client_id_size
        (λ n. put_vaydns e.tunnel (record v { client_id_size = n }))
        (codes "Client ID size set to ") e)

  unfoldable pub edit_queue_size : Args → Edit → Action Edit
  edit_queue_size args e = on_vaydns e (λ v.
      edit_number crypto message_of args (codes "queue-size") (codes "Queue size")
        (if v.queue_size == 0 then 512 else v.queue_size) v.queue_size
        (λ n. put_vaydns e.tunnel (record v { queue_size = n })) (codes "Queue size set to ") e)

  unfoldable pub edit_vaydns : Args → Edit → Action Edit
  edit_vaydns args e =
      edit_vaydns_mtu args e
      >>= edit_vaydns_keys args
      >>= edit_record_type args
      >>= edit_idle_timeout args
      >>= edit_keep_alive args
      >>= edit_client_id args
      >>= edit_queue_size args

  unfoldable pub edit_email : Args → Edit → Action Edit
  edit_email args e = on_naive e (λ n.
      edit_text crypto message_of args (codes "email") (codes "Email (for Let's Encrypt)") n.email
        (bytes_eq n.email) (λ s. put_naive e.tunnel (record n { email = s }))
        (codes "Email set to ") e)

  unfoldable pub edit_decoy : Args → Edit → Action Edit
  edit_decoy args e = on_naive e (λ n.
      edit_text crypto message_of args (codes "decoy-url") (codes "Decoy URL") n.decoy_url
        (bytes_eq n.decoy_url) (λ s. put_naive e.tunnel (record n { decoy_url = s }))
        (codes "Decoy URL set to ") e)

  -- switch tunnel.Transport
  unfoldable pub edit_transport : Args → Edit → Action Edit
  edit_transport args e =
      if bytes_eq e.tunnel.transport transport_dnstt
      then edit_dnstt crypto message_of args e
      else if bytes_eq e.tunnel.transport transport_vaydns
      then edit_vaydns args e
      else if bytes_eq e.tunnel.transport transport_naive
      then (edit_email args e >>= edit_decoy args)
      else pure e

  -- the service of a tunnel that has one
  unfoldable pub recreate_service : TunnelConfig → Action Done
  recreate_service t = if is_direct_transport t then done else (do
    ignore (stop (tunnel_service_name t.tag))
    say info (codes "Restarting tunnel service...")
    c ← get_config
    or_fail (create_service t c) tunnel_edit (codes "failed to recreate service"))

  unfoldable pub finish_edit : Edit → Action Done
  finish_edit e =
      if e.changed
      then (do
        save_or_fail tunnel_edit
        recreate_service e.tunnel
        say success (codes "Tunnel " ++ (quote e.tunnel.tag ++ codes " updated")))
      else say info (codes "No changes")

  unfoldable pub edit_tunnel : Args → TunnelConfig → Action Done
  edit_tunnel args t = do
    say print (
        codes "  Editing tunnel "
        ++ (quote t.tag
            ++ (codes " (" ++ (t.transport ++ (codes "/" ++ (t.backend ++ codes ")"))))))
    say print (codes "  Press Enter to keep current value\n")
    tagged ← edit_tag crypto message_of args t
    placed ← edit_domain crypto message_of args tagged
    e ← edit_transport args placed
    finish_edit e

  -- the tag that is given, or picked among the tunnels
  unfoldable pub pick_tag : Args → Config → Action Bytes
  pick_tag args c =
      let tag = get_arg args (codes "tag") in
      if not (is_empty tag)
      then pure tag
      else if length c.tunnels == 0
      then fail tunnel_edit (codes "no tunnels configured")
      else select (codes "Select tunnel to edit") (tunnel_options c.tunnels)

  unfoldable pub edit_named : Args → Bytes → Config → Action Done
  edit_named args tag c =
      on_option (get_tunnel c tag) (fail tunnel_edit (not_found tag)) (edit_tunnel args)

  -- `handleTunnelEdit`
  unfoldable pub handle_tunnel_edit : Args → Action Done
  handle_tunnel_edit args = do c ← get_config; tag ← pick_tag args c; edit_named args tag c
