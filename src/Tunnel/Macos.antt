-- ===== src/Tunnel/Macos.antt =====
-- The driver for macOS, which keeps the plans of a configuration
-- (client/app_core/crates/tunnel/src/macos{,_mapper,_adapter,_stats}.rs).
pub mod Refinement
use slan.Prelude.{
  ℕ, String, Bool, true, false, List, [], ◌∷◌, map, null, any, Option, none, some, Result, ok, err,
  reject_if, ◌==◌,
}
use slan.Prelude.Table
use slan.Prelude.Table.{Table}
use slan.Client.Action.{Action, go_on, ◌>>=◌, ◌>>◌, pure, fail, lift, gets, modify, fail_if, need}
use slan.AppCore.Wireguard.{
  AllowedIp, TunnelTransport, relay, WireGuardInterfaceConfig, WireGuardPeerConfig,
  WireGuardRuntimeStats,
}
use slan.Tunnel.Backend.{TunnelConfig, TunnelBackend, Call}
use slan.Tunnel.Linux.Mapper.{is_blank}

pub record MacosWireGuardKitInterfacePlan : Type 0 where
  pub interface_name : Option String
  pub private_key : String
  pub listen_port : Option ℕ
  pub mtu : Option ℕ
  pub addresses : List String
  pub dns_servers : List String

pub record MacosWireGuardKitPeerPlan : Type 0 where
  pub public_key : String
  pub preshared_key : Option String
  pub endpoint : Option String
  pub allowed_ips : List String
  pub persistent_keepalive_seconds : Option ℕ

pub record MacosWireGuardKitRuntime : Type 0 where
  pub interface_name : Option String
  pub addresses : List String
  pub dns_servers : List String

-- the adapter, with its two locks
pub record MacosWireGuardKitAdapter : Type 0 where
  pub interface : Option MacosWireGuardKitRuntime
  pub peers : Table MacosWireGuardKitPeerPlan
  pub interface_poisoned : Bool
  pub peers_poisoned : Bool

abbrev pub Method : Type 0 → Type 0
Method A = Call MacosWireGuardKitAdapter A

-- `if failing { return Err(text) }`, for a method
abbrev pub refuse : Bool → String → Method (Unit {0})
refuse failing text = fail_if failing text

unfoldable pub validate_interface : WireGuardInterfaceConfig → Method (Unit {0})
validate_interface interface = do
  refuse (is_blank interface.key_pair.public_key)
      "macos backend requires non-empty wireguard public key"
  refuse (is_blank interface.key_pair.private_key)
      "macos backend requires non-empty wireguard private key"
  refuse (null interface.addresses)
      "macos backend requires at least one wireguard interface address"

unfoldable pub validate_peer : WireGuardPeerConfig → Method (Unit {0})
validate_peer peer = do
  refuse (is_blank peer.public_key) "macos backend requires non-empty peer public key"
  refuse (null peer.allowed_ips) "macos backend requires at least one allowed ip"

unfoldable pub validate_config : TunnelConfig → Method (Unit {0})
validate_config config = do
  validate_interface config.wireguard_interface
  validate_peer config.wireguard_peer
  refuse (is_blank config.local_virtual_ip) "macos backend requires non-empty local virtual ip"
  refuse (is_blank config.peer_virtual_ip) "macos backend requires non-empty peer virtual ip"
  refuse (config.local_virtual_ip == config.peer_virtual_ip)
      "macos backend requires distinct local and peer virtual ip"

unfoldable pub map_interface : WireGuardInterfaceConfig → MacosWireGuardKitInterfacePlan
map_interface interface = record {
  interface_name = interface.interface_name;
  private_key = interface.key_pair.private_key;
  listen_port = interface.listen_port;
  mtu = interface.mtu;
  addresses = interface.addresses;
  dns_servers = interface.dns_servers;
}

unfoldable pub map_peer : WireGuardPeerConfig → MacosWireGuardKitPeerPlan
map_peer peer = record {
  public_key = peer.public_key;
  preshared_key = peer.preshared_key;
  endpoint = peer.endpoint;
  allowed_ips = map (λ (ip : AllowedIp). ip.cidr) peer.allowed_ips;
  persistent_keepalive_seconds = peer.persistent_keepalive_seconds;
}

unfoldable pub initial_runtime : MacosWireGuardKitInterfacePlan → MacosWireGuardKitRuntime
initial_runtime interface = record {
  interface_name = interface.interface_name;
  addresses = interface.addresses;
  dns_servers = interface.dns_servers;
}

abbrev pub map_runtime_stats : TunnelTransport → String → Option String → WireGuardRuntimeStats
map_runtime_stats transport peer_public_key selected_endpoint = record {
  transport = transport;
  peer_public_key = peer_public_key;
  selected_endpoint = selected_endpoint;
  latest_handshake_at_ms = none;
  bytes_received = 0;
  bytes_sent = 0;
}

abbrev pub lock_interface : Method (Unit {0})
lock_interface =
    gets (λ s. s.interface_poisoned) >>= λ p. fail_if p "macos adapter interface state poisoned"

abbrev pub lock_peers : Method (Unit {0})
lock_peers = gets (λ s. s.peers_poisoned) >>= λ p. fail_if p "macos adapter peer state poisoned"

abbrev pub set_interface :
    MacosWireGuardKitRuntime → MacosWireGuardKitAdapter → MacosWireGuardKitAdapter
set_interface runtime s = record s { interface = some runtime }

abbrev pub insert_peer :
    String → MacosWireGuardKitPeerPlan → MacosWireGuardKitAdapter → MacosWireGuardKitAdapter
insert_peer ip peer s = record s { peers = Table.insert ip peer s.peers }

abbrev pub drop_peer : String → MacosWireGuardKitAdapter → MacosWireGuardKitAdapter
drop_peer ip s = record s { peers = Table.remove ip s.peers }

abbrev pub planned_peer_ips : MacosWireGuardKitAdapter → List String
planned_peer_ips s = elim s.peers_poisoned [ true ↦ [] | false ↦ map (λ e. e.0) s.peers ]

abbrev pub interface_runtime : MacosWireGuardKitAdapter → Option MacosWireGuardKitRuntime
interface_runtime s = elim s.interface_poisoned [ true ↦ none | false ↦ s.interface ]

unfoldable pub apply_interface_config : WireGuardInterfaceConfig → Method (Unit {0})
apply_interface_config interface = do
  validate_interface interface
  lock_interface
  modify (set_interface (initial_runtime (map_interface interface)))

unfoldable pub apply_peer_config : String → WireGuardPeerConfig → Method (Unit {0})
apply_peer_config peer_virtual_ip peer = do
  validate_peer peer
  lock_peers
  modify (insert_peer peer_virtual_ip (map_peer peer))

unfoldable pub establish : TunnelConfig → Method (Unit {0})
establish config = do
  validate_config config
  apply_interface_config config.wireguard_interface
  apply_peer_config config.peer_virtual_ip config.wireguard_peer

unfoldable pub remove_peer : String → Method (Unit {0})
remove_peer peer_virtual_ip = lock_peers >>= λ _. modify (drop_peer peer_virtual_ip)

abbrev pub stats_for : String → List String → Option WireGuardRuntimeStats
stats_for ip planned = elim (any (λ planned_ip. planned_ip == ip) planned) [
  | false ↦ none
  | true ↦ some (map_runtime_stats relay "" none)
]

unfoldable pub runtime_stats : String → Method (Option WireGuardRuntimeStats)
runtime_stats peer_virtual_ip = do
  current ← gets interface_runtime
  need current "macos adapter interface runtime unavailable"
  planned ← gets planned_peer_ips
  pure (stats_for peer_virtual_ip planned)

abbrev pub macos_backend : TunnelBackend MacosWireGuardKitAdapter
macos_backend = record {
  apply_interface_config = apply_interface_config;
  apply_peer_config = apply_peer_config;
  remove_peer = remove_peer;
  bring_up = pure tt;
  bring_down = pure tt;
  runtime_stats = runtime_stats;
  establish = establish;
  close = remove_peer;
}
