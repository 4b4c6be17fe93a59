-- ===== src/Facade/Tunnels.antt =====
-- client/app_core/crates/ffi-bridge/src/{tunnel_runtime,state_helpers}.rs: the tunnel of the path that
-- is active.
pub mod Replacing
pub mod Planned
use slan.Prelude.{
  ℕ, ◌%◌, ◌^◌, String, Bool, true, false, List, [], ◌∷◌, Option, none, some, Result, ok, err,
  concat, ◌==◌, if◌then◌else◌,
}
use slan.AppCore.Connection
use slan.AppCore.Connection.{
  ActivePath, ConnectionState, disconnected, connected, p2p_path, relay_path, derp_path,
}
use slan.AppCore.Network.{Peer, NetworkMap, Endpoint}
use slan.AppCore.Wireguard.{TunnelTransport, p2p, relay, derp, WireGuardKeyPair}
use slan.Client.Action.{Action, go_on, ◌>>=◌, ◌>>◌, pure, fail, gets, modify, fail_if}
use slan.Tunnel.Backend.{TunnelConfig, Call}
use slan.Tunnel.Runtime.{TunnelManager}

unfoldable pub connection_state_from_active_path : ActivePath → ConnectionState
connection_state_from_active_path ActivePath.none = disconnected
connection_state_from_active_path (ActivePath.p2p _) = connected p2p_path
connection_state_from_active_path (ActivePath.relay _) = connected relay_path
connection_state_from_active_path (ActivePath.derp _ _) = connected derp_path

unfoldable pub transport_from_active_path : ActivePath → Option TunnelTransport
transport_from_active_path (ActivePath.p2p _) = some p2p
transport_from_active_path (ActivePath.relay _) = some relay
transport_from_active_path (ActivePath.derp _ _) = some derp
transport_from_active_path ActivePath.none = none

abbrev pub first : {A : Type 0} → List A → Option A
first [] = none
first (a ∷ _) = some a

abbrev pub mtu_of : Option NetworkMap → Option ℕ
mtu_of none = none
mtu_of (some m) = elim m.mtu [ none ↦ none | some mtu ↦ some (mtu % 2 ^ 16) ]

abbrev pub dns_of : Option NetworkMap → List String
dns_of none = []
dns_of (some m) = m.dns.servers

abbrev pub address_of : Option Endpoint → Option String
address_of none = none
address_of (some e) = some e.address

-- a host route
abbrev pub host_cidr : String → String
host_cidr ip = concat (ip ∷ "/32" ∷ [])

abbrev pub tunnel_config :
    Option NetworkMap → Peer → WireGuardKeyPair → TunnelTransport → String → String → TunnelConfig
tunnel_config network_map peer key_pair transport local_virtual_ip peer_virtual_ip = record {
  transport = transport;
  local_virtual_ip = local_virtual_ip;
  peer_virtual_ip = peer_virtual_ip;
  wireguard_interface = record {
    interface_name = none;
    key_pair = key_pair;
    listen_port = none;
    mtu = mtu_of network_map;
    addresses = host_cidr local_virtual_ip ∷ [];
    dns_servers = dns_of network_map;
    peers = [];
  };
  wireguard_peer = record {
    peer_node_id = some peer.node_id;
    public_key = peer.public_key;
    preshared_key = none;
    endpoint = address_of (first peer.endpoints);
    allowed_ips = record { cidr = host_cidr peer_virtual_ip } ∷ [];
    persistent_keepalive_seconds = none;
  };
}

abbrev pub config_if_given :
    Option NetworkMap
    → Peer
    → WireGuardKeyPair
    → Option TunnelTransport
    → Option String
    → Option String
    → Option TunnelConfig
config_if_given network_map peer key_pair (some transport) (some local) (some remote) =
    some (tunnel_config network_map peer key_pair transport local remote)
config_if_given network_map peer key_pair transport local remote = none

-- of the bootstrap the network map and the device's virtual address are read
unfoldable pub build_tunnel_config :
    ActivePath → Option NetworkMap → Option String → Peer → WireGuardKeyPair → Option TunnelConfig
build_tunnel_config active_path network_map device_virtual_ip peer key_pair =
    config_if_given network_map peer key_pair (transport_from_active_path active_path)
      device_virtual_ip (first peer.virtual_ips)

-- the tunnel manager, and the peer of the tunnel behind its lock
pub record TunnelCell (S : Type 0) : Type 0 where
  pub poisoned : Bool
  pub current : Option String
  pub manager : S

abbrev pub same_ip : Option String → Option String → Bool
same_ip none none = true
same_ip none (some b) = false
same_ip (some a) none = false
same_ip (some a) (some b) = a == b

abbrev pub ip_of : Option TunnelConfig → Option String
ip_of none = none
ip_of (some config) = some config.peer_virtual_ip

module _ {S : Type 0} (M : TunnelManager S) where
  abbrev pub Method : Type 0 → Type 0
  Method A = Action (TunnelCell S) String A

  -- a call of the manager
  unfoldable pub on_manager : {A : Type 0} → Call S A → Method A
  on_manager m s = let (r, manager') = m s.manager in (r, record s { manager = manager' })

  abbrev pub set_current : Option String → TunnelCell S → TunnelCell S
  set_current ip s = record s { current = ip }

  abbrev pub lock : Method (Unit {0})
  lock = gets (λ s. s.poisoned) >>= λ p. fail_if p "app core tunnel state poisoned"

  -- the tunnel of another peer is closed
  unfoldable pub close_other : Option String → Option String → Method (Unit {0})
  close_other next none = pure tt
  close_other next (some ip) =
      if same_ip (some ip) next
      then pure tt
      else (on_manager (M.close ip) >>= λ _. modify (set_current none))

  -- a tunnel is established, unless there is one to the peer
  unfoldable pub establish_next : Option TunnelConfig → Option String → Method (Unit {0})
  establish_next none current = pure tt
  establish_next (some config) current =
      if same_ip current (some config.peer_virtual_ip)
      then pure tt
      else (on_manager (M.establish config) >>= λ _.
          modify (set_current (some config.peer_virtual_ip)))

  unfoldable pub replace_tunnel : Option TunnelConfig → Method (Unit {0})
  replace_tunnel config = do
    lock
    old ← gets (λ s. s.current)
    close_other (ip_of config) old
    current ← gets (λ s. s.current)
    establish_next config current
