-- ===== src/Lib.antt =====
-- SlipGate: a manager of DNS tunnels with a DNS router, a SOCKS5 proxy and a TLS front for SSH.
--
-- The program keeps a configuration of tunnels, backends and users (internal/config). From it the DNS router
-- (internal/dnsrouter) forwards the queries of each tunnel's domain to the local port of the tunnel and answers probes
-- that prove knowledge of the tunnel's key. The SOCKS5 proxy (internal/proxy/socks5.go, cmd/socks.go) lets the users of
-- the configuration in by a credentials file. StunTLS (internal/proxy/stuntls.go) takes SSH through WebSocket frames or
-- behind a payload. A slipnet:// link (internal/clientcfg) hands a tunnel to a client. An operator drives all this by the
-- actions of internal/actions, whose handlers (internal/handlers) ask at a terminal (internal/prompt), change the
-- configuration, and make, restart and remove systemd units (internal/service, internal/transport, internal/router), keys
-- (internal/keys), users (internal/system) and firewall rules (internal/network).
--
-- Prelude: bytes and strings as lists of natural numbers, Go's functions on them, big-endian words, decimal
--   numbers, and maps as association lists (`Prelude.Table`).
-- Config: internal/config. The records, `Config.Store` (GetTunnel to RemoveUser), `Config.Ports` (NextAvailablePort),
--   `Config.Tags` (UniqueTag), `Config.Validation` (Validate, ValidateNewTunnel, ValidatePassword). Every method holds
--   the mutex for its whole body and is a function of the configuration.
-- Dns: internal/dnsrouter. `Dns.Parser` (extractDomain), `Dns.Routes` (AddRoute, findBackend), `Dns.Pending` (the TXID
--   table of one backend connection and the steps of its goroutines), `Dns.Response`, `Dns.Edns` and `Dns.Verify`
--   (handleVerify; the wire format of its probes is `Dns.Verify.Question`), `Dns.Router` (handleQuery and Serve).
-- Proxy: `Proxy.Stream` is a connection as its input and its output, with `do` blocks for the handlers that read and
--   write; `Proxy.Socks5` is the handshake of socks5.go; `Proxy.WebSocket` and `Proxy.Payload` are the frames, the relay
--   and the search for the SSH banner of stuntls.go.
-- Creds: what internal/proxy/microsocks.go writes for the users, and how cmd/socks.go reads it at the start and on
--   SIGHUP.
-- ClientConfig: encode.go, fields.go and generate.go of internal/clientcfg.
-- Host: the machine that the handlers work on. A `World` is the configuration in memory, the files, the directories and a
--   log; an `Action` is a function of the world that returns a result or an error and the next world, with `do` blocks.
--   `Env` is what the machine answers: each command with its output, its error and the files after it, each write (all of
--   it, nothing, or a part), each refusal, and what is typed. It may look at the whole world, so that every theorem holds
--   for every such machine. `Host.Keeps`, `Host.Returns`, `Host.Ensures` and `Host.Leads` are the rules for invariants and results of
--   actions, one for each way to build an action, which `search` applies. `Host.Machine` has the calls of os and os/exec, and
--   `Host.Rename` what os.Rename leaves.
-- Actions: internal/actions. `Actions.Ids` (ids.go, options.go), `Actions.Inputs` (router.go, system.go, tunnel.go),
--   `Actions.Registry` (registry.go).
-- Prompt: internal/prompt. `Prompt` is prompt.go, `Prompt.Line` the editor of readline.go, `Prompt.Line.Zipper` and
--   `Prompt.Line.Refines` the editor on two sides of a cursor that it refines, `Prompt.Answers` what the questions return.
-- Service: internal/service/systemd.go and internal/dnsrouter/service.go, with the unit files in `Service.UnitFile`.
-- Transport, Routing, Keys, Network: internal/transport (`Transport.Create` has CreateService and RemoveService),
--   internal/router, internal/keys, and internal/network (`Network.Ports` has DisableResolvedStub and FreePort).
-- System: internal/system/user.go; `System.SshConfig` is the text of sshd_config.
-- SocksService: the unit and the credentials file of internal/proxy/microsocks.go.
-- Handlers: internal/handlers. `Handlers.Add` and `Handlers.Add.Both` (tunnel_add.go), `Handlers.Edit` (tunnel_edit.go),
--   `Handlers.Remove` (tunnel_remove.go), `Handlers.Lifecycle` (tunnel_lifecycle.go), `Handlers.Router` (router_mode.go,
--   router_switch.go, router_status.go), `Handlers.Share` (tunnel_share.go, config_loadexport.go), `Handlers.Users`
--   (system_sshusers.go), `Handlers.System` (system_mtu.go, system_restart.go). `Handlers.Routed` is the state of the
--   routing, which the modules Routed, Whole and Invariant below it follow through the commands, and
--   `Handlers.Reachable` the commands as a step relation. A pointer into the configuration is the tag of the
--   tunnel it points to, and a write through it replaces the first tunnel of that tag.
-- Each module Frame says what its actions leave alone: the configuration in memory.
-- Tests: concrete data, and the theorems at it.
--
-- Numbers are natural numbers, and where Go's integers wrap (the TXID counter, the length bytes) the remainder is
-- written out. Where Go's integers would be negative (the padding of a response) subtraction stops at 0, which the guard
-- behind it maps to the same value. Fuel: a name has at most as many labels as the packet has bytes; the TXID search
-- makes the 65536 tries of the code; the search for a tag or a port tries one candidate more than there are tunnels,
-- which is enough since each failing candidate is another tunnel's; the relay reads one frame for each unit of fuel, and
-- its writes follow a list that says of each whether it is whole or fails behind some first bytes. The
-- search for the port of an external tunnel is the search of NextAvailablePort from another number. The loop that makes
-- many users at once has twice the count and once the users that there are: each of its rounds makes or skips a user of
-- the count, or passes over the name of a user that there is. The line editor needs no fuel: it reads the bytes that the terminal sends.
--
-- Parameters: HMAC, base32, base64, the random draws and padding, the digest and PEM functions, the file reads of the DNS
-- router, the clock, the dial and write results, the order of Go's range over a map, the longest slice that Go can
-- allocate, the curve of the keys, JSON, the texts of the errors of internal/config, and everything of `Env`. The binaries,
-- the certificates and WARP (internal/binary, internal/certs, internal/warp) are any actions, of which the theorems assume
-- that they leave the configuration in memory alone.
--
-- Simplifications: a negative number that is typed is read as no number; paths have no `.`, `..` or `//` to clean; case,
-- spaces and printable characters are those of ASCII; the colours and the cursor of the terminal are left out, and a read
-- of standard input that is not a terminal returns one text.
--
-- Not modelled: sockets and the byte relays, Load of the configuration, the parts of internal/warp, internal/binary and
-- internal/certs that call web services and tools, the menu (internal/menu), the command line (cmd), and of
-- internal/handlers the install, the wizard, the statistics, the diagnosis, the update, the uninstall and WARP.
-- ListSlipgateServices reads a directory and is left out with them. Goroutines interleave in whole steps, as the
-- atomic operations of sync.Map and the mutexes of the code order them; the HTTP requests in front of a
-- WebSocket are not read here.
pub mod Actions
pub mod ClientConfig
pub mod Config
pub mod Creds
pub mod Dns
pub mod Handlers
pub mod Host
pub mod Keys
pub mod Network
pub mod Prelude
pub mod Prompt
pub mod Proxy
pub mod Routing
pub mod Service
pub mod SocksService
pub mod System
pub mod Tests
pub mod Transport
