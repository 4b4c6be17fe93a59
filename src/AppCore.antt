-- ===== src/AppCore.antt =====
-- client/app_core/crates/app-core: the types that the client's crates share.
pub mod Derp
pub mod Connection
pub mod Network
pub mod Wireguard
