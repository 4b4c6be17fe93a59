-- ===== src/RelayCore.antt =====
-- server/server-relay/crates/relay-core: the errors, sessions, tickets and times of the relay.
pub mod Error
pub mod Session
pub mod Ticket
pub mod Time
