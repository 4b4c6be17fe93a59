-- ===== src/Tunnel/Linux/Mapper.antt =====
-- client/app_core/crates/tunnel/src/{linux_mapper,linux_stats}.rs
pub mod Validity
use slan.Prelude.{
  ℕ, String, Bool, true, false, List, [], ◌∷◌, map, null, Option, none, some, Result, ok, err,
  reject_if, ◌>>=◌, ◌>>◌, trim, is_empty, ◌==◌,
}
use slan.AppCore.Wireguard.{
  AllowedIp, TunnelTransport, WireGuardInterfaceConfig, WireGuardPeerConfig, WireGuardRuntimeStats,
}
use slan.Tunnel.Backend.{TunnelConfig}

pub record LinuxKernelInterfacePlan : Type 0 where
  pub interface_name : Option String
  pub private_key : String
  pub listen_port : Option ℕ
  pub mtu : Option ℕ
  pub addresses : List String
  pub dns_servers : List String

pub record LinuxKernelPeerPlan : Type 0 where
  pub peer_node_id : Option String
  pub public_key : String
  pub preshared_key : Option String
  pub endpoint : Option String
  pub allowed_ips : List String
  pub persistent_keepalive_seconds : Option ℕ

abbrev pub is_blank : String → Bool
is_blank s = is_empty (trim s)

unfoldable pub validate_interface : WireGuardInterfaceConfig → Result String (Unit {0})
validate_interface interface = do
  reject_if (is_blank interface.key_pair.public_key)
      "linux backend requires non-empty interface public key"
  reject_if (is_blank interface.key_pair.private_key)
      "linux backend requires non-empty interface private key"
  reject_if (null interface.addresses) "linux backend requires at least one interface address"

unfoldable pub validate_peer : String → WireGuardPeerConfig → Result String (Unit {0})
validate_peer peer_virtual_ip peer = do
  reject_if (is_blank peer_virtual_ip) "linux backend requires non-empty peer virtual ip"
  reject_if (is_blank peer.public_key) "linux backend requires non-empty peer public key"
  reject_if (null peer.allowed_ips) "linux backend requires at least one allowed ip"

unfoldable pub validate_config : TunnelConfig → Result String (Unit {0})
validate_config config = do
  validate_interface config.wireguard_interface
  validate_peer config.peer_virtual_ip config.wireguard_peer
  reject_if (is_blank config.local_virtual_ip) "linux backend requires non-empty local virtual ip"
  reject_if (is_blank config.peer_virtual_ip) "linux backend requires non-empty peer virtual ip"
  reject_if (config.local_virtual_ip == config.peer_virtual_ip)
      "linux backend requires distinct local and peer virtual ip"

unfoldable pub map_interface : WireGuardInterfaceConfig → LinuxKernelInterfacePlan
map_interface interface = record {
  interface_name = interface.interface_name;
  private_key = interface.key_pair.private_key;
  listen_port = interface.listen_port;
  mtu = interface.mtu;
  addresses = interface.addresses;
  dns_servers = interface.dns_servers;
}

unfoldable pub map_peer : WireGuardPeerConfig → LinuxKernelPeerPlan
map_peer peer = record {
  peer_node_id = peer.peer_node_id;
  public_key = peer.public_key;
  preshared_key = peer.preshared_key;
  endpoint = peer.endpoint;
  allowed_ips = map (λ (ip : AllowedIp). ip.cidr) peer.allowed_ips;
  persistent_keepalive_seconds = peer.persistent_keepalive_seconds;
}

pub record LinuxKernelRuntime : Type 0 where
  pub interface_name : Option String
  pub addresses : List String
  pub dns_servers : List String
  pub is_up : Bool

unfoldable pub initial_runtime : LinuxKernelInterfacePlan → LinuxKernelRuntime
initial_runtime interface = record {
  interface_name = interface.interface_name;
  addresses = interface.addresses;
  dns_servers = interface.dns_servers;
  is_up = false;
}

unfoldable pub map_runtime_stats : TunnelTransport → LinuxKernelPeerPlan → WireGuardRuntimeStats
map_runtime_stats transport peer = record {
  transport = transport;
  peer_public_key = peer.public_key;
  selected_endpoint = peer.endpoint;
  latest_handshake_at_ms = none;
  bytes_received = 0;
  bytes_sent = 0;
}
