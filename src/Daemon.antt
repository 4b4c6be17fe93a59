-- ===== src/Daemon.antt =====
-- server/server-relay/crates/relay-daemon: the UDP daemon, its protocol, its runtime and its loop.
pub mod Protocol
pub mod Errors
pub mod Runtime
pub mod Serve
pub mod Cases
pub mod Invariant
pub mod Delivery
pub mod Bindings
pub mod Requests
pub mod EndToEnd
pub mod Loop
