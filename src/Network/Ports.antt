-- ===== src/Network/Ports.antt =====
-- Freeing the ports that the tunnels need: DisableResolvedStub and FreePort of internal/network/firewall.go.
use slipgate.Prelude.{ℕ, [], ◌∷◌, ◌++◌, if◌then◌else◌, Bytes, codes, decimal}
use slipgate.Prelude.Table.{text_eq}
use slipgate.Host.{
  Action, Env, plain, Done, raise, done, attempt, ignore, each, on_option, on_result, ◌>>=◌, ◌>>◌,
  error_text,
}
use slipgate.Host.Machine.{run, output, succeeds, installed, write_file, mkdir_all}
use slipgate.Network.{pids_of_lines, port_flag, split_lines}

module _ ⦃env : Env⦄ where
  -- fmt.Errorf(text + ": %w", err)
  unfoldable pub named_error : Action Done → Bytes → Action Done
  named_error m text = do
    r ← attempt m
    on_result r (λ _. done) (λ e. raise (plain (text ++ (codes ": " ++ error_text e))))

  -- `DisableResolvedStub`
  unfoldable pub disable_resolved_stub : Action Done
  disable_resolved_stub = do
    running ← succeeds (codes "systemctl" ∷ codes "is-active" ∷ codes "systemd-resolved" ∷ [])
    if running
        then (do
          named_error (mkdir_all (codes "/etc/systemd/resolved.conf.d"))
              (codes "create resolved conf dir")
          named_error
              (write_file (codes "/etc/systemd/resolved.conf.d/slipgate-no-stub.conf")
                (codes "[Resolve]\nDNSStubListener=no\n"))
              (codes "write resolved config")
          named_error (run (codes "systemctl" ∷ codes "restart" ∷ codes "systemd-resolved" ∷ []))
              (codes "restart systemd-resolved"))
        else done

  -- `_ = exec.Command("kill", "-9", pid).Run()`
  unfoldable pub kill_pid : Bytes → Action Done
  kill_pid pid = ignore (run (codes "kill" ∷ codes "-9" ∷ pid ∷ []))

  -- without `fuser`: the processes that `ss -t` lists, which are TCP only
  unfoldable pub kill_listed : ℕ → Action Done
  kill_listed port = do
    answer ← output (codes "ss" ∷ codes "-tlnp" ∷ (codes "sport = :" ++ decimal port) ∷ [])
    on_option answer.1 (each kill_pid (pids_of_lines (split_lines answer.0))) (λ e. done)

  -- `FreePort`, which returns no error
  unfoldable pub free_port : ℕ → Bytes → Action Done
  free_port port proto = do
    there ← installed (codes "fuser")
    if there
        then ignore (run (codes "fuser" ∷ codes "-k" ∷ port_flag port proto ∷ []))
        else kill_listed port
