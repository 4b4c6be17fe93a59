-- ===== src/Lib.antt =====
-- The relay of slan: the server that passes packets between two devices of a session, and the
-- client that picks a path to the other device, talks to the control server and sets up the
-- tunnel.
--
-- The server (server/server-relay/crates). A device sends JSON datagrams. `Daemon.Serve` is
-- `RelayDaemon::serve` (relay-daemon/src/daemon.rs): it takes one datagram after the other, and
-- sends the packet for the peer and the reply. `Daemon.Runtime` is `RelayRuntime`
-- (relay-daemon/src/runtime): `handle_attach`, `handle_forward` and `handle_detach`, each a
-- function from the runtime to the result and the new runtime. `Daemon.Protocol` has the messages,
-- `Daemon.Errors` the codes of errors. The runtime calls `UdpRelay` (udp-relay/src/relay.rs),
-- which keeps the sessions in `SessionStore` (session/src/memory) and asks `Auth`
-- (auth/src/validator) whether a ticket is good. `RelayCore` (relay-core/src) has the errors,
-- sessions, tickets and times. `Daemon.Cases`, `Daemon.Invariant`, `Daemon.Bindings`,
-- `Daemon.Delivery`, `Daemon.Requests`, `Daemon.EndToEnd` and `Daemon.Loop` hold the proofs about
-- the daemon, `Auth.Checks` those about the validation.
--
-- The client (client/app_core/crates). `AppCore` has the shared types of app-core/src.
-- `Client.Path` is `InMemoryPathManager` (relay-client/src/runtime.rs), which sends each packet by
-- the peer-to-peer connection, by DERP or by the relay. `Client.Pool` is `InMemoryDerpPool`, a set
-- of links (`Client.Links`) to DERP nodes, one of them active; `Client.Derp` is
-- `SocketDerpClient`, one link. `Client.Relay` is `SocketRelayClient`, the client of the daemon
-- above, `Client.Codes` the error codes that it reads, and `Client.P2p` is `SocketP2PConnector`
-- (p2p/src/runtime.rs). The modules below these hold the proofs about them, `Client.Interop` those
-- about daemon and client together. The pool takes its links' clients as the interface
-- `DerpClient`, which `Client.Derp` implements; the path manager takes the pool, the relay client
-- and the connector as the interfaces `PoolCalls` and `Transport`, and `Client.Path.Failover` puts
-- the pool in.
--
-- The control connection (client/app_core/crates/control-ws-client/src/lib.rs). `Control.Client`
-- is `ControlWsClient`, which exchanges messages with the control server over a WebSocket: it
-- asks, and what comes before the answer waits in a queue of events. `Control.Connect` opens the
-- connection, `Control.Frame` has the frames, `Control.Url` the addresses and the HTTP request,
-- `Control.Wire` the messages and how they become the types of `AppCore.Network`, and
-- `Control.Stream` the TCP stream below: what arrives is a list of bytes, failed reads and pauses.
--
-- The tunnel drivers (client/app_core/crates/tunnel/src). `Tunnel.Backend` has the trait of a
-- platform and the backends of backend.rs and android_backend.rs, `Tunnel.Runtime` the manager
-- over a backend. `Tunnel.Linux` is the driver for the kernel: `Mapper` checks and plans a
-- configuration (linux_mapper.rs, linux_stats.rs), `Commands` makes the command lines and
-- `Adapter` runs them (linux_adapter.rs), `Execution` has what runs a command (linux_adapter.rs,
-- linux_native.rs), and `Backend` is linux_backend.rs. `Tunnel.Windows` is windows_backend.rs:
-- `Text` has what it does with texts, `Address` prefix lengths and netmasks, `Scripts` the
-- texts of commands and what is read off their output, `Console` the commands, `Backend` the
-- methods. `Tunnel.Macos` is macos.rs with macos_mapper.rs,
-- macos_adapter.rs and macos_stats.rs. `Tunnel.Platform` is platform.rs. `Tunnel.Contract` says
-- what a manager promises of its peers, as changes of a table; the backends fill it, and
-- `Tunnel.Managers` puts them together.
--
-- The facade (client/app_core/crates/ffi-bridge/src). `Facade.Tunnels` makes the configuration of
-- a tunnel for the active path (tunnel_runtime.rs) and puts it in the place of the tunnel before
-- it (state_helpers.rs), over a manager as above; `Facade.Keys` is key_provider.rs;
-- `Facade.Errors` is diagnostics.rs, which classifies the errors of the path manager by the
-- relay's codes.
--
-- Conventions. A method of the source is a function that takes the state and returns the result
-- with the new state. A `Result` is `Prelude.Results.Result`, a `HashMap` is `Prelude.Table`, a
-- text is a native `String`, bytes are a `List ℕ`. The clock is read once for a call: `none`
-- stands for a clock before the Unix epoch. A lock that a panic has poisoned is a flag of the
-- state. An address is the printed host with the port.
--
-- Parameters. HMAC-SHA256 and base64 are the fields of `Auth.Crypto`, with the law that base64
-- decodes what it encodes. The JSON codec is `Daemon.Serve.Codec` on the daemon's side and
-- `Client.Relay.Json` on the client's. The answers of the daemon's socket come with each event;
-- the client's sockets, its resolver and its clock are `Client.System.System`, whose state moves
-- on with each call. A method of the socket clients is an `Client.Action.Action`, a state monad
-- with errors, and so are those of the control client and the tunnel drivers. The JSON of the
-- control connection is `Control.Client.Codec`, the connection that is dialled an argument of
-- `Control.Connect.connect`. What runs the commands of the Linux driver is a
-- `LinuxKernelCommandExecutor`, and the processes of the host are `Tunnel.Linux.Execution.Host`,
-- on Windows `Tunnel.Windows.Console.WindowsHost`. The target and the environment are arguments in
-- `Tunnel.Platform`. The file of the tunnel keys is `Facade.Keys.KeyFile`, with the law that it
-- gives back what is written.
--
-- Fuel: the two loops of the control client that read until an answer comes run for one round more
-- than bytes, failures and pauses have arrived; each round takes at least one of these, and on an
-- empty stream a read ends the loop. Every other loop of the code is over a list or a number.
-- `Client.System.decimal` prints at most the twenty digits that a machine word has. Numbers of the
-- source that are machine words are bounded where the source checks them (`RelayCore.Time`), and
-- wrap or saturate where it computes so (`Client.Links`, `Client.Pool.next_epoch`).
--
-- Not modelled: the configuration file and the command line of the daemon, which are I/O; of the
-- client, the HTTP client of the controller, the rest of the facade, the helper process, the
-- bindings and the command line; of the control connection, the HTTP exchange that acknowledges a
-- message, of which only the id is kept; the Go business server and the applications, which are in
-- other languages.
pub mod Prelude
pub mod RelayCore
pub mod Auth
pub mod SessionStore
pub mod UdpRelay
pub mod Daemon
pub mod AppCore
pub mod Client
pub mod Control
pub mod Tunnel
pub mod Facade
mod Examples
