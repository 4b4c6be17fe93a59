-- ===== src/Control.antt =====
-- client/app_core/crates/control-ws-client/src/lib.rs: the client of the control server's WebSocket.
pub mod Stream
pub mod Frame
pub mod Wire
pub mod Url
pub mod Client
pub mod Connect
