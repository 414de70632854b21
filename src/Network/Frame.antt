-- ===== src/Network/Frame.antt =====
-- internal/network leaves the configuration in memory alone.
use slipgate.Prelude.{ℕ, Bytes, Bool}
use slipgate.Config.{Config}
use slipgate.Host.{Env, Action, Done}
use slipgate.Host.Keeps.{Keeps}
use slipgate.Host.Frame.{InMemory, machine_rules}
use slipgate.Network.{
  Firewall, ufw, firewalld, iptables, nothing, ufw_active, firewalld_active, is_used, find_firewall,
  write_restore_unit, persist_rules, iptables_persist, iptables_allow, firewalld_allow, open_with,
  allow_port,
}
use slipgate.Network.Ports.{named_error, disable_resolved_stub, kill_pid, kill_listed, free_port}

module _ ⦃env : Env⦄ {P : Config → Type 0} where
  ufw_active-InMemory : Keeps (InMemory P) ufw_active
  unfolding ufw_active
  ufw_active-InMemory = search machine_rules

  firewalld_active-InMemory : Keeps (InMemory P) firewalld_active
  unfolding firewalld_active
  firewalld_active-InMemory = search machine_rules

  is_used-InMemory :
      (tool : Bytes) (m : Action Bool) → Keeps (InMemory P) m → Keeps (InMemory P) (is_used tool m)
  unfolding is_used
  is_used-InMemory tool m k = search machine_rules

  find_firewall-InMemory : Keeps (InMemory P) find_firewall
  unfolding find_firewall
  find_firewall-InMemory =
      search (machine_rules, is_used-InMemory, ufw_active-InMemory, firewalld_active-InMemory) depth
        9

  write_restore_unit-InMemory : (path : Bytes) → Keeps (InMemory P) (write_restore_unit path)
  unfolding write_restore_unit
  write_restore_unit-InMemory path = search machine_rules depth 8

  persist_rules-InMemory : (path : Bytes) → Keeps (InMemory P) (persist_rules path)
  unfolding persist_rules
  persist_rules-InMemory path = search (machine_rules, write_restore_unit-InMemory) depth 8

  iptables_persist-InMemory : Keeps (InMemory P) iptables_persist
  unfolding iptables_persist
  iptables_persist-InMemory = search (machine_rules, persist_rules-InMemory)

  iptables_allow-InMemory :
      (port : ℕ) (proto : Bytes) → Keeps (InMemory P) (iptables_allow port proto)
  unfolding iptables_allow
  iptables_allow-InMemory port proto = search (machine_rules, iptables_persist-InMemory)

  firewalld_allow-InMemory :
      (port : ℕ) (proto : Bytes) → Keeps (InMemory P) (firewalld_allow port proto)
  unfolding firewalld_allow
  firewalld_allow-InMemory port proto = search machine_rules

  open_with-InMemory :
      (port : ℕ) (proto : Bytes) (kind : Firewall) → Keeps (InMemory P) (open_with port proto kind)
  unfolding open_with
  open_with-InMemory port proto ufw = search machine_rules
  open_with-InMemory port proto firewalld = firewalld_allow-InMemory port proto
  open_with-InMemory port proto iptables = iptables_allow-InMemory port proto
  open_with-InMemory port proto nothing = search machine_rules

  pub allow_port-InMemory : (port : ℕ) (proto : Bytes) → Keeps (InMemory P) (allow_port port proto)
  unfolding allow_port
  allow_port-InMemory port proto =
      search (machine_rules, find_firewall-InMemory, open_with-InMemory)

  named_error-InMemory :
      (m : Action Done) (text : Bytes)
      → Keeps (InMemory P) m
      → Keeps (InMemory P) (named_error m text)
  unfolding named_error
  named_error-InMemory m text k = search machine_rules

  pub disable_resolved_stub-InMemory : Keeps (InMemory P) disable_resolved_stub
  unfolding disable_resolved_stub
  disable_resolved_stub-InMemory = search (machine_rules, named_error-InMemory) depth 8

  kill_pid-InMemory : (pid : Bytes) → Keeps (InMemory P) (kill_pid pid)
  unfolding kill_pid
  kill_pid-InMemory pid = search machine_rules

  kill_listed-InMemory : (port : ℕ) → Keeps (InMemory P) (kill_listed port)
  unfolding kill_listed
  kill_listed-InMemory port = search (machine_rules, kill_pid-InMemory)

  pub free_port-InMemory : (port : ℕ) (proto : Bytes) → Keeps (InMemory P) (free_port port proto)
  unfolding free_port
  free_port-InMemory port proto = search (machine_rules, kill_listed-InMemory)

pub ruleset network_rules =
    (allow_port-InMemory, disable_resolved_stub-InMemory, free_port-InMemory)
