-- ===== src/Tunnel/Managers.antt =====
-- The managers over the backends of client/app_core/crates/tunnel/src together.
use slan.Tunnel.Backend.{InMemoryTunnelBackend}
use slan.Tunnel.Runtime.{in_memory_tunnel_manager, system_tunnel_manager}
use slan.Tunnel.Contract.{Request, Changes, change, answer}
use slan.Tunnel.Contract.Memory.{memory_answers}
use slan.Tunnel.Linux.Mapper
use slan.Tunnel.Linux.Execution.{LinuxKernelCommandExecutor}
use slan.Tunnel.Linux.Adapter.{Adapter}
use slan.Tunnel.Linux.Backend.{linux_backend}
use slan.Tunnel.Linux.Backend.Refinement.{linux_answers}
use slan.Tunnel.Windows.Console.{WindowsHost}
use slan.Tunnel.Windows.Backend.{Backend, windows_backend}
use slan.Tunnel.Windows.Backend.Refinement.{configs, windows_answers}
use slan.Tunnel.Macos
use slan.Tunnel.Macos.{MacosWireGuardKitAdapter, macos_backend}
use slan.Tunnel.Macos.Refinement.{macos_answers}

-- Each request to a manager, over the backend in memory, for Linux, for Windows or for macOS, that goes
-- well makes its change to the table of peers; one that fails makes it or leaves the table as it was.
pub managers_answer :
    (X : LinuxKernelCommandExecutor) (H : WindowsHost) (r : Request)
    → Changes
        (λ (s : InMemoryTunnelBackend). s.state)
        (change (λ p. p) r)
        (answer in_memory_tunnel_manager r)
      × Changes
          (λ (s : Adapter X). s.peers)
          (change Mapper.map_peer r)
          (answer (system_tunnel_manager (linux_backend X)) r)
      × Changes
          (λ (s : Backend H). configs s.peers)
          (change (λ p. p) r)
          (answer (system_tunnel_manager (windows_backend H)) r)
      × Changes
          (λ (s : MacosWireGuardKitAdapter). s.peers)
          (change Macos.map_peer r)
          (answer (system_tunnel_manager macos_backend) r)
managers_answer X H r = (memory_answers r, linux_answers X r, windows_answers H r, macos_answers r)
