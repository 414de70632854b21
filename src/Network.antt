-- ===== src/Network.antt =====
-- internal/network/firewall.go: opening a port in the firewall, and freeing the ports that the
-- tunnels need.
pub mod Frame
pub mod Ports
use slipgate.Prelude.{
  ℕ, ◌+◌, ◌-◌, Bool, true, false, not, ◌&&◌, ◌||◌, List, [], ◌∷◌, ◌++◌, Option, none, some, ltb,
  leb, ◌==◌, if◌then◌else◌, Bytes, codes, bytes_eq, has_prefix, has_suffix, contains, lines_of,
  decimal, length, drop, take, get_or,
}
use slipgate.Prelude.Table.{load, text_eq}
use slipgate.Host.{
  Action, Env, Error, plain, Result, ok, err, Done, pure, raise, done, gets, attempt, ignore, each,
  on_option, on_result, ◌>>=◌, ◌>>◌, error_text,
}
use slipgate.Host.Machine.{run, output, succeeds, installed, write_file, mkdir_all}

-- `splitLines`: the last line need not be closed
unfoldable pub split_lines_from : Bytes → Bytes → List Bytes
split_lines_from line [] = if length line == 0 then [] else line ∷ []
split_lines_from line (c ∷ s) =
    if c == b'\n' then line ∷ split_lines_from [] s else split_lines_from (line ++ (c ∷ [])) s

unfoldable pub split_lines : Bytes → List Bytes
split_lines s = split_lines_from [] s

-- `splitFields`: the words between spaces and tabs
unfoldable pub split_fields_from : Bytes → Bytes → List Bytes
split_fields_from word [] = if length word == 0 then [] else word ∷ []
split_fields_from word (c ∷ s) =
    let rest = split_fields_from [] s in
    let longer = split_fields_from (word ++ (c ∷ [])) s in
    if c == b' ' || c == b'\t' then (if length word == 0 then rest else word ∷ rest) else longer

unfoldable pub split_fields : Bytes → List Bytes
split_fields s = split_fields_from [] s

-- the loop of `iptablesFiltering`
unfoldable pub filters : List Bytes → Bool
filters [] = false
filters (line ∷ lines) =
    let rest = filters lines in
    if has_prefix line (codes "-P INPUT ")
    then (if has_suffix line (codes " ACCEPT") then rest else true)
    else if contains line (codes "-j DROP") || contains line (codes "-j REJECT")
    then true
    else rest

-- fmt.Sprintf("%d/%s", port, proto)
abbrev pub port_flag : ℕ → Bytes → Bytes
port_flag port proto = decimal port ++ (codes "/" ++ proto)

abbrev pub accept_rule : Bytes → ℕ → Bytes → List Bytes
accept_rule op port proto =
    codes "iptables"
    ∷ op
    ∷ codes "INPUT"
    ∷ codes "-p"
    ∷ proto
    ∷ codes "--dport"
    ∷ decimal port
    ∷ codes "-j"
    ∷ codes "ACCEPT"
    ∷ []

abbrev rules_path : Bytes
rules_path = codes "/etc/iptables/slipgate-rules.v4"

abbrev unit_path : Bytes
unit_path = codes "/etc/systemd/system/slipgate-iptables.service"

-- `iptablesUnitTemplate`
unfoldable pub restore_unit : Bytes → Bytes
restore_unit restore_path = lines_of (
    codes "[Unit]"
    ∷ codes "Description=Restore slipgate iptables rules"
    ∷ codes "DefaultDependencies=no"
    ∷ codes "Before=network-pre.target"
    ∷ codes "Wants=network-pre.target"
    ∷ []
    ∷ codes "[Service]"
    ∷ codes "Type=oneshot"
    ∷ (codes "ExecStart=" ++ (restore_path ++ (codes " " ++ rules_path)))
    ∷ codes "RemainAfterExit=yes"
    ∷ []
    ∷ codes "[Install]"
    ∷ codes "WantedBy=multi-user.target"
    ∷ [])

-- strip trailing comma or paren
unfoldable pub trim_pid : Bytes → Bytes
trim_pid [] = []
trim_pid (c ∷ s) =
    let rest = trim_pid s in if length rest == 0 && (c == b',' || c == b')') then [] else c ∷ rest

-- the process identifiers in the output of `ss`
unfoldable pub pids_of_fields : List Bytes → List Bytes
pids_of_fields [] = []
pids_of_fields (field ∷ fields) =
    let rest = pids_of_fields fields in
    if ltb 4 (length field) && has_prefix field (codes "pid=")
    then trim_pid (drop 4 field) ∷ rest
    else rest

unfoldable pub pids_of_lines : List Bytes → List Bytes
pids_of_lines [] = []
pids_of_lines (line ∷ lines) = pids_of_fields (split_fields line) ++ pids_of_lines lines

-- which firewall is used
pub data Firewall : Type 0 where
  ufw firewalld iptables nothing : Firewall

module _ ⦃env : Env⦄ where
  -- `ufwActive`
  unfoldable pub ufw_active : Action Bool
  ufw_active = do
    answer ← output (codes "ufw" ∷ codes "status" ∷ [])
    pure (elim answer.1 [ none ↦ contains answer.0 (codes "Status: active") | some e ↦ false ])

  -- `firewalldActive`
  unfoldable pub firewalld_active : Action Bool
  firewalld_active = succeeds (codes "firewall-cmd" ∷ codes "--state" ∷ [])

  -- `_, err := exec.LookPath(tool); err == nil && active()`
  unfoldable pub is_used : Bytes → Action Bool → Action Bool
  is_used tool active = do there ← installed tool; if there then active else pure false

  -- the first firewall that is there and active; iptables need only be there
  unfoldable pub find_firewall : Action Firewall
  find_firewall = do
    u ← is_used (codes "ufw") ufw_active
    if u then pure ufw else (do
      f ← is_used (codes "firewall-cmd") firewalld_active
      if f
          then pure firewalld
          else (do i ← installed (codes "iptables"); pure (if i then iptables else nothing)))

  -- `iptablesFiltering`
  unfoldable pub iptables_filtering : Action Bool
  iptables_filtering = do
    answer ← output (codes "iptables" ∷ codes "-S" ∷ codes "INPUT" ∷ [])
    pure (elim answer.1 [ none ↦ filters (split_lines answer.0) | some e ↦ false ])

  -- `HostFirewallActive`
  unfoldable pub host_firewall_active : Action Bool
  host_firewall_active = do
    kind ← find_firewall
    elim kind [
      | ufw ↦ pure true
      | firewalld ↦ pure true
      | iptables ↦ iptables_filtering
      | nothing ↦ pure false
    ]

  -- the unit that restores the rules, when it is not there as it should be
  unfoldable pub write_restore_unit : Bytes → Action Done
  write_restore_unit restore_path = do
    existing ← gets (λ w. elim (load unit_path w.files) [ none ↦ [] | some t ↦ t ])
    if bytes_eq existing (restore_unit restore_path) then done else (do
      write_file unit_path (restore_unit restore_path)
      run (codes "systemctl" ∷ codes "daemon-reload" ∷ [])
      run (codes "systemctl" ∷ codes "enable" ∷ codes "slipgate-iptables.service" ∷ []))

  unfoldable pub persist_rules : Bytes → Action Done
  persist_rules restore_path = do
    saved ← output (codes "iptables-save" ∷ [])
    on_option saved.1 done raise
    mkdir_all (codes "/etc/iptables")
    write_file rules_path saved.0
    write_restore_unit restore_path

  -- `iptablesPersist`; the text of the error of LookPath is not looked at
  unfoldable pub iptables_persist : Action Done
  iptables_persist = do
    found ← gets (λ w. env.look_path w (codes "iptables-restore"))
    on_option found (raise (plain (codes "iptables-restore"))) persist_rules

  -- `iptablesAllow`
  unfoldable pub iptables_allow : ℕ → Bytes → Action Done
  iptables_allow port proto = do
    there ← succeeds (accept_rule (codes "-C") port proto)
    if there then done else (run (accept_rule (codes "-A") port proto) >> ignore iptables_persist)

  -- `firewalldAllow`
  unfoldable pub firewalld_allow : ℕ → Bytes → Action Done
  firewalld_allow port proto = do
    run (
        codes "firewall-cmd" ∷ codes "--permanent" ∷ codes "--add-port" ∷ port_flag port proto ∷ [])
    run (codes "firewall-cmd" ∷ codes "--reload" ∷ [])

  unfoldable pub open_with : ℕ → Bytes → Firewall → Action Done
  open_with port proto ufw = run (codes "ufw" ∷ codes "allow" ∷ port_flag port proto ∷ [])
  open_with port proto firewalld = firewalld_allow port proto
  open_with port proto iptables = iptables_allow port proto
  open_with port proto nothing = done

  -- `AllowPort`
  unfoldable pub allow_port : ℕ → Bytes → Action Done
  allow_port port proto = find_firewall >>= open_with port proto

  -- `RemovePort`
  unfoldable pub remove_port : ℕ → Bytes → Action Done
  remove_port port proto = do
    kind ← find_firewall
    elim kind [
      | ufw ↦ run (codes "ufw" ∷ codes "delete" ∷ codes "allow" ∷ port_flag port proto ∷ [])
      | firewalld ↦ (do
        ignore (
            run (
              codes "firewall-cmd"
              ∷ codes "--permanent"
              ∷ codes "--remove-port"
              ∷ port_flag port proto
              ∷ []))
        run (codes "firewall-cmd" ∷ codes "--reload" ∷ []))
      | iptables ↦ (run (accept_rule (codes "-D") port proto) >> ignore iptables_persist)
      | nothing ↦ done
    ]
