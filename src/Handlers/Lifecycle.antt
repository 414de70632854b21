-- ===== src/Handlers/Lifecycle.antt =====
-- internal/handlers/tunnel_lifecycle.go: start, stop, status and logs of a tunnel.
pub mod Frame
use slipgate.Prelude.{
  [], ◌++◌, Option, none, some, ltb, ◌==◌, if◌then◌else◌, Bytes, codes, bytes_eq, length, decimal,
  trim_space,
}
use slipgate.Prelude.Table.{load, text_eq}
use slipgate.Config.{
  TunnelConfig, DnsttConfig, VayDnsConfig, NaiveConfig, StunTlsConfig, is_empty, transport_dnstt,
  transport_vaydns, transport_naive, transport_stuntls,
}
use slipgate.Config.Store.{get_tunnel}
use slipgate.ClientConfig.Generate.{replace_all}
use slipgate.Host.{
  each, on_option, on_result, Action, Env, Done, info, success, print, pure, done, gets, attempt,
  get_config, say, ◌>>=◌, ◌>>◌,
}
use slipgate.Host.Format.{quote, pad}
use slipgate.Actions.{Args, get_arg, fail, fail_because}
use slipgate.Actions.Ids.{tunnel_start, tunnel_stop, tunnel_status, tunnel_logs}
use slipgate.Service.{tunnel_service_name, start, stop, status, logs}
use slipgate.Handlers.{not_found}

-- fmt.Sprintf("  %-15s %-12s %-8s %-25s %s", …)
unfoldable pub status_row : Bytes → Bytes → Bytes → Bytes → Bytes → Bytes
status_row tag transport backend domain state =
    codes "  "
    ++ (pad 15 tag
        ++ (codes " "
            ++ (pad 12 transport
                ++ (codes " "
                    ++ (pad 8 backend ++ (codes " " ++ (pad 25 domain ++ (codes " " ++ state))))))))

-- strings.ReplaceAll(tag, "dnstt", "noizdns")
unfoldable pub noizdns_tag : Bytes → Bytes
noizdns_tag tag = replace_all 0 tag (codes "dnstt") (codes "noizdns")

-- `readKeyFile`
unfoldable pub read_key_file : Bytes → Action Bytes
read_key_file path =
    if is_empty path
    then pure []
    else gets (λ w. elim (load path w.files) [ none ↦ [] | some content ↦ trim_space content ])

unfoldable pub show_private_key : Bytes → Action Done
show_private_key path = do
  key ← read_key_file path
  if is_empty key then done else say print (codes "  Priv Key  : " ++ key)

-- the lines that a transport adds
unfoldable pub show_dnstt : DnsttConfig → Action Done
show_dnstt d = do
  say print (codes "  MTU       : " ++ decimal d.mtu)
  say print (codes "  Public Key: " ++ d.public_key)
  show_private_key d.private_key

unfoldable pub show_vaydns : VayDnsConfig → Action Done
show_vaydns v = do
  say print (codes "  MTU       : " ++ decimal v.mtu)
  say print (codes "  Record    : " ++ v.record_type)
  say print (codes "  Public Key: " ++ v.public_key)
  show_private_key v.private_key

unfoldable pub show_naive : NaiveConfig → Action Done
show_naive n = do
  say print (codes "  Email     : " ++ n.email)
  say print (codes "  Decoy URL : " ++ n.decoy_url)

unfoldable pub show_stuntls : StunTlsConfig → Action Done
show_stuntls s = do
  say print (codes "  TLS Port  : " ++ decimal s.port)
  say print (codes "  Cert      : " ++ s.cert)

-- if x != nil { … }
abbrev when_some : {A : Type 0} → Option A → (A → Action Done) → Action Done
when_some o f = on_option o done f

unfoldable pub show_transport : TunnelConfig → Action Done
show_transport t =
    if bytes_eq t.transport transport_dnstt
    then when_some t.dnstt show_dnstt
    else if bytes_eq t.transport transport_vaydns
    then when_some t.vaydns show_vaydns
    else if bytes_eq t.transport transport_naive
    then when_some t.naive show_naive
    else if bytes_eq t.transport transport_stuntls
    then when_some t.stuntls show_stuntls
    else done

module _ ⦃env : Env⦄ where
  -- the tunnel that an action names, with the action's identifier
  unfoldable pub named_tunnel : Bytes → Bytes → Action TunnelConfig
  named_tunnel id tag =
      if is_empty tag
      then fail id (codes "tunnel tag is required")
      else get_config >>= λ c. on_option (get_tunnel c tag) (fail id (not_found tag)) (λ t. pure t)

  -- if err != nil { return NewError(id, message, err) }
  unfoldable pub or_fail : {A : Type 0} → Action A → Bytes → Bytes → Action A
  or_fail m id message = do
    r ← attempt m
    on_result r (λ a. pure a) (λ e. fail_because id message e)

  -- `handleTunnelStart`
  unfoldable pub handle_tunnel_start : Args → Action Done
  handle_tunnel_start args = do
    let tag = get_arg args (codes "tag")
    named_tunnel tunnel_start tag
    or_fail (start (tunnel_service_name tag)) tunnel_start (codes "failed to start service")
    say success (codes "Tunnel " ++ (quote tag ++ codes " started"))

  -- `handleTunnelStop`
  unfoldable pub handle_tunnel_stop : Args → Action Done
  handle_tunnel_stop args = do
    let tag = get_arg args (codes "tag")
    named_tunnel tunnel_stop tag
    or_fail (stop (tunnel_service_name tag)) tunnel_stop (codes "failed to stop service")
    say success (codes "Tunnel " ++ (quote tag ++ codes " stopped"))

  -- if err != nil { status = "unknown" }
  unfoldable pub known_status : Bytes → Action Bytes
  known_status tag = do
    answer ← status (tunnel_service_name tag)
    pure (elim answer.1 [ none ↦ answer.0 | some e ↦ codes "unknown" ])

  -- `showTunnelStatus`
  unfoldable pub show_tunnel_status : TunnelConfig → Action Done
  show_tunnel_status t = do
    state ← known_status t.tag
    say print (status_row t.tag t.transport t.backend t.domain state)

  -- `showNoizDNSStatus`
  unfoldable pub show_noizdns_status : TunnelConfig → Action Done
  show_noizdns_status t = do
    state ← known_status t.tag
    say print (status_row (noizdns_tag t.tag) (codes "noizdns") t.backend t.domain state)

  -- `showTunnelDetail`
  unfoldable pub show_tunnel_detail : TunnelConfig → Action Done
  show_tunnel_detail t = do
    state ← known_status t.tag
    say print (codes "  Tag       : " ++ t.tag)
    say print (codes "  Transport : " ++ t.transport)
    say print (codes "  Backend   : " ++ t.backend)
    if is_empty t.domain then done else say print (codes "  Domain    : " ++ t.domain)
    if ltb 0 t.port then say print (codes "  Port      : " ++ decimal t.port) else done
    say print (codes "  Status    : " ++ state)
    show_transport t

  -- one round of the loop of `handleTunnelStatus`
  unfoldable pub show_one : TunnelConfig → Action Done
  show_one t = do
    show_tunnel_status t
    if bytes_eq t.transport transport_dnstt then show_noizdns_status t else done

  unfoldable pub show_every : Action Done
  show_every = do
    c ← get_config
    each show_one c.tunnels
    if length c.tunnels == 0
        then say info (codes "No tunnels configured. Run 'slipgate tunnel add' to create one.")
        else done

  -- `handleTunnelStatus`
  unfoldable pub handle_tunnel_status : Args → Action Done
  handle_tunnel_status args =
      let tag = get_arg args (codes "tag") in
      if is_empty tag then show_every else named_tunnel tunnel_status tag >>= show_tunnel_detail

  -- `handleTunnelLogs`
  unfoldable pub handle_tunnel_logs : Args → Action Done
  handle_tunnel_logs args = do
    let tag = get_arg args (codes "tag")
    let lines = get_arg args (codes "lines")
    named_tunnel tunnel_logs tag
    text ←
        or_fail (logs (tunnel_service_name tag) (if is_empty lines then codes "50" else lines))
          tunnel_logs (codes "failed to get logs")
    say print text
