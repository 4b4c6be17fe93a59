-- ===== src/Tunnel.antt =====
-- The tunnel drivers of client/app_core/crates/tunnel/src.
pub mod Backend
pub mod Contract
pub mod Runtime
pub mod Platform
pub mod Linux
pub mod Windows
pub mod Macos
pub mod Managers
