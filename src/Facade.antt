-- ===== src/Facade.antt =====
-- What the facade of client/app_core/crates/ffi-bridge/src does with tunnels and errors.
pub mod Errors
pub mod Tunnels
pub mod Keys
