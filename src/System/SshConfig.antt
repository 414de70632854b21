-- ===== src/System/SshConfig.antt =====
-- `ensureSSHMatchGroup` of internal/system/user.go: what sshd_config becomes.
use slipgate.Prelude.{
  Bool, true, false, not, ◌&&◌, [], ◌∷◌, ◌++◌, none, some, ◌==◌, if◌then◌else◌, Bytes, codes, index,
  contains, length, take, drop,
}

abbrev pub ssh_config : Bytes
ssh_config = codes "/etc/ssh/sshd_config"

abbrev pub global_mark : Bytes
global_mark = codes "# SlipGate global SSH settings"

abbrev pub users_mark : Bytes
users_mark = codes "# SlipGate SSH tunnel users"

abbrev pub match_mark : Bytes
match_mark = codes "Match Group slipgate-ssh"

abbrev pub alive_mark : Bytes
alive_mark = codes "ClientAliveInterval"

-- `globalSettings` and `matchBlock`
abbrev pub global_settings : Bytes
global_settings =
    codes "\n"
    ++ (global_mark ++ codes "\nMaxStartups 100:30:300\nMaxSessions 100\nTCPKeepAlive no\n")

abbrev pub match_block : Bytes
match_block =
    codes "\n"
    ++ (users_mark
        ++ (codes "\n"
            ++ (match_mark
                ++ (codes
                      "\n    AllowTcpForwarding yes\n    X11Forwarding no\n    AllowAgentForwarding no\n    ForceCommand /bin/false\n    "
                    ++ (alive_mark ++ codes " 30\n    ClientAliveCountMax 10\n")))))

-- strings.TrimRight(s, "\n")
unfoldable pub trim_lines : Bytes → Bytes
trim_lines [] = []
trim_lines (c ∷ s) =
    let rest = trim_lines s in if length rest == 0 && c == b'\n' then [] else c ∷ rest

-- with the global settings, before the first Match block
unfoldable pub with_global : Bytes → Bytes
with_global content = elim (index content users_mark) [
  | some i ↦ take i content ++ (global_settings ++ (codes "\n" ++ drop i content))
  | none ↦ elim (index content (codes "\nMatch ")) [
    | some i ↦ take i content ++ (global_settings ++ drop i content)
    | none ↦ content ++ global_settings
  ]
]

-- The function returns, or goes on with this content, which is to be written when it changed.
pub data SshUpdate : Type 0 where
  leave : SshUpdate
  rewrite : Bytes → Bool → SshUpdate

-- the old block, when there is one: up to its comment
unfoldable pub without_block : Bytes → Bool → SshUpdate
without_block content changed =
    if contains content match_mark
    then if contains content alive_mark && not changed
      then leave
      else elim (index content users_mark) [
        | some i ↦ rewrite (trim_lines (take i content) ++ codes "\n") true
        | none ↦ if changed then rewrite content changed else leave
      ]
    else rewrite content changed

unfoldable pub ssh_update : Bytes → SshUpdate
ssh_update content =
    if contains content global_mark
    then without_block content false
    else without_block (with_global content) true

-- !strings.Contains(content, "Match Group slipgate-ssh")
unfoldable pub needs_block : Bytes → Bool
needs_block content = not (contains content match_mark)
