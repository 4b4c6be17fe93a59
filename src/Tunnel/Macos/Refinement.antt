-- ===== src/Tunnel/Macos/Refinement.antt =====
-- The peers of the macOS backend (client/app_core/crates/tunnel/src/macos.rs)
use slan.Prelude.{String, refl}
use slan.Prelude.Table
use slan.Prelude.Table.{Table}
use slan.Client.Action.{modify}
use slan.Client.Action.Keeps.{Keeps-bind, Keeps-gets, Keeps-fail_if, Keeps-modify}
use slan.AppCore.Wireguard.{WireGuardInterfaceConfig, WireGuardPeerConfig}
use slan.Tunnel.Backend.{TunnelConfig}
use slan.Tunnel.Runtime.{system_tunnel_manager}
use slan.Tunnel.Contract
use slan.Tunnel.Contract.{
  Request, Changes, Leaves, Changes-modify, Changes-after, KeepsTable, change, answer,
}
use slan.Tunnel.Macos.{
  MacosWireGuardKitAdapter, MacosWireGuardKitPeerPlan, MacosWireGuardKitRuntime, map_peer,
  apply_interface_config, apply_peer_config, remove_peer, validate_interface, validate_peer,
  validate_config, set_interface, macos_backend, lock_peers,
}
use slan.Tunnel.Macos as Macos

abbrev peers_of : MacosWireGuardKitAdapter → Table MacosWireGuardKitPeerPlan
peers_of s = s.peers

interface-Leaves : (r : MacosWireGuardKitRuntime) → Leaves peers_of (modify (set_interface r))
interface-Leaves r v = Keeps-modify _ _ (λ s h. h)

ruleset steps = (Keeps-bind, Keeps-gets, Keeps-fail_if, interface-Leaves)

validate_interface-Leaves : (c : WireGuardInterfaceConfig) → Leaves peers_of (validate_interface c)
unfolding validate_interface
validate_interface-Leaves c v = search steps depth 14

validate_peer-Leaves : (p : WireGuardPeerConfig) → Leaves peers_of (validate_peer p)
unfolding validate_peer
validate_peer-Leaves p v = search steps depth 14

validate_config-Leaves : (c : TunnelConfig) → Leaves peers_of (validate_config c)
unfolding validate_config
validate_config-Leaves c v =
    search (steps, validate_interface-Leaves, validate_peer-Leaves) depth 14

apply_interface_config-Leaves :
    (c : WireGuardInterfaceConfig) → Leaves peers_of (apply_interface_config c)
unfolding apply_interface_config
apply_interface_config-Leaves c v = search (steps, validate_interface-Leaves) depth 14

lock_peers-Leaves : Leaves peers_of lock_peers
lock_peers-Leaves v = search steps depth 14

apply_peer_config-Does :
    (ip : String) (p : WireGuardPeerConfig)
    → Changes peers_of (Table.insert ip (map_peer p)) (apply_peer_config ip p)
unfolding apply_peer_config
apply_peer_config-Does ip p = Changes-after peers_of _ _ _ (validate_peer-Leaves p) (λ u.
    Changes-after peers_of _ _ _ lock_peers-Leaves (λ w. Changes-modify peers_of _ _ (λ s. refl)))

remove_peer-Does : (ip : String) → Changes peers_of (Table.remove ip) (remove_peer ip)
unfolding remove_peer
remove_peer-Does ip =
    Changes-after peers_of _ _ _ lock_peers-Leaves (λ w. Changes-modify peers_of _ _ (λ s. refl))

establish-Does :
    (config : TunnelConfig)
    → Changes peers_of
        (Table.insert config.peer_virtual_ip (map_peer config.wireguard_peer))
        (Macos.establish config)
unfolding Macos.establish
establish-Does config = Changes-after peers_of _ _ _ (validate_config-Leaves config) (λ u.
    Changes-after peers_of _ _ _ (apply_interface_config-Leaves _)
      (λ w. apply_peer_config-Does _ _))

-- Each request to the manager over the macOS backend that goes well makes its change to the planned
-- peers; one that fails makes it or leaves them as they were.
pub macos_answers :
    (r : Request)
    → Changes
        (λ (s : MacosWireGuardKitAdapter). s.peers)
        (change map_peer r)
        (answer (system_tunnel_manager macos_backend) r)
unfolding change
macos_answers (Contract.establish config) = establish-Does config
macos_answers (Contract.close ip) = remove_peer-Does ip

abbrev pub macos_keeps_table : KeepsTable (system_tunnel_manager macos_backend)
macos_keeps_table = record {
  Peer = MacosWireGuardKitPeerPlan;
  planned = map_peer;
  peers = peers_of;
  answers = macos_answers;
}
