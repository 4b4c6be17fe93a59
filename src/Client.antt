-- ===== src/Client.antt =====
-- client/app_core/crates/relay-client and p2p: the client's side of the relay, its pool of DERP
-- links and its choice of a path.
pub mod Codes
pub mod Links
pub mod Pool
pub mod Path
pub mod Interop
pub mod Action
pub mod System
pub mod Derp
pub mod P2p
pub mod Relay
