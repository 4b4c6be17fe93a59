-- ===== src/Tunnel/Linux.antt =====
-- The driver for the WireGuard of the Linux kernel
-- (client/app_core/crates/tunnel/src/linux_{mapper,stats,native,adapter,backend}.rs).
pub mod Mapper
pub mod Commands
pub mod Execution
pub mod Adapter
pub mod Backend
