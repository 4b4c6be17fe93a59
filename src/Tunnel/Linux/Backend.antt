-- ===== src/Tunnel/Linux/Backend.antt =====
-- `LinuxKernelWireGuardBackend` (client/app_core/crates/tunnel/src/linux_backend.rs)
pub mod Refinement
pub mod Failing
pub mod Established
use slan.Prelude.{String, Bool, true, false, List, [], Option, none, some, Result, ok, err}
use slan.Client.Action.{Action, go_on, ◌>>=◌, ◌>>◌, pure, fail, lift, gets, need}
use slan.AppCore.Wireguard.{
  TunnelTransport, p2p, relay, WireGuardInterfaceConfig, WireGuardPeerConfig, WireGuardRuntimeStats,
}
use slan.Tunnel.Backend.{TunnelConfig, TunnelBackend}
use slan.Tunnel.Linux.Mapper.{
  validate_config, validate_interface, validate_peer, map_interface, map_peer, initial_runtime,
  map_runtime_stats, LinuxKernelPeerPlan, LinuxKernelRuntime,
}
use slan.Tunnel.Linux.Execution.{LinuxKernelCommandExecutor}
use slan.Tunnel.Linux.Adapter.{
  Adapter, Method, apply_interface, apply_peer, remove_peer, bring_up, bring_down,
  interface_runtime, peer_runtime,
}

module _ (X : LinuxKernelCommandExecutor) where
  unfoldable pub apply_interface_config : WireGuardInterfaceConfig → Method X (Unit {0})
  apply_interface_config interface = do
    lift (validate_interface interface)
    let mapped = map_interface interface
    apply_interface X mapped (initial_runtime mapped)

  unfoldable pub apply_peer_config : String → WireGuardPeerConfig → Method X (Unit {0})
  apply_peer_config peer_virtual_ip peer = do
    lift (validate_peer peer_virtual_ip peer)
    apply_peer X peer_virtual_ip (map_peer peer)

  unfoldable pub establish : TunnelConfig → Method X (Unit {0})
  establish config = do
    lift (validate_config config)
    apply_interface_config config.wireguard_interface
    apply_peer_config config.peer_virtual_ip config.wireguard_peer
    bring_up X

  abbrev pub stats_of :
      LinuxKernelRuntime → Option LinuxKernelPeerPlan → Option WireGuardRuntimeStats
  stats_of interface none = none
  stats_of interface (some peer) =
      some (map_runtime_stats (elim interface.is_up [ true ↦ p2p | false ↦ relay ]) peer)

  unfoldable pub runtime_stats : String → Method X (Option WireGuardRuntimeStats)
  runtime_stats peer_virtual_ip = do
    current ← gets (interface_runtime X)
    interface ← need current "linux adapter interface runtime unavailable"
    peer ← gets (peer_runtime X peer_virtual_ip)
    pure (stats_of interface peer)

  abbrev pub linux_backend : TunnelBackend (Adapter X)
  linux_backend = record {
    apply_interface_config = apply_interface_config;
    apply_peer_config = apply_peer_config;
    remove_peer = remove_peer X;
    bring_up = bring_up X;
    bring_down = bring_down X;
    runtime_stats = runtime_stats;
    establish = establish;
    close = remove_peer X;
  }
