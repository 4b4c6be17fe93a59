-- ===== src/Tunnel/Runtime.antt =====
-- client/app_core/crates/tunnel/src/{manager,runtime}.rs: the manager over a backend.
use slan.Prelude.{String}
use slan.Tunnel.Backend.{TunnelConfig, TunnelBackend, Call, InMemoryTunnelBackend, memory_backend}

pub record TunnelManager (S : Type 0) : Type 0 where
  pub establish : TunnelConfig → Call S (Unit {0})
  pub close : String → Call S (Unit {0})

-- `SystemTunnelManager`
abbrev pub system_tunnel_manager : {S : Type 0} → TunnelBackend S → TunnelManager S
system_tunnel_manager B = record { establish = B.establish; close = B.close }

-- `InMemoryTunnelManager`
abbrev pub in_memory_tunnel_manager : TunnelManager InMemoryTunnelBackend
in_memory_tunnel_manager = system_tunnel_manager memory_backend
