-- ===== src/Tunnel/Windows.antt =====
-- The driver for Windows (client/app_core/crates/tunnel/src/windows_backend.rs).
pub mod Text
pub mod Address
pub mod Scripts
pub mod Console
pub mod Backend
