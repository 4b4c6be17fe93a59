-- ===== src/Tunnel/Windows/Address/Netmask.antt =====
-- Netmasks (client/app_core/crates/tunnel/src/windows_backend.rs)
