-- ===== src/Control/Wire.antt =====
-- The messages of the control server (client/app_core/crates/control-ws-client/src/lib.rs): as they
-- stand on the wire, and what they become.
use slan.Prelude.{ℕ, String, Bool, List, map, Option, none, some, is_empty, if◌then◌else◌}
use slan.Prelude.Int.{ℤ}
use slan.AppCore.Network.{DnsConfig, RelayEndpoint, RelayRegion, Endpoint, Peer, Route, NetworkMap}
use slan.AppCore.Derp.{RelayTicket}

pub record EndpointWire : Type 0 where
  pub endpoint_type : String
  pub address : String
  pub updated_at : ℤ

abbrev pub endpoint_from : EndpointWire → Endpoint
endpoint_from v = record {
  endpoint_type = v.endpoint_type;
  address = v.address;
  updated_at = v.updated_at;
}

pub record PeerWire : Type 0 where
  pub node_id : String
  pub device_id : String
  pub public_key : String
  pub status : String
  pub relay_allowed : Bool
  pub virtual_ips : List String
  pub endpoints : List EndpointWire
  pub allowed_routes : List String

unfoldable pub peer_from : PeerWire → Peer
peer_from v = record {
  node_id = v.node_id;
  device_id = v.device_id;
  public_key = v.public_key;
  status = v.status;
  relay_allowed = v.relay_allowed;
  virtual_ips = v.virtual_ips;
  endpoints = map endpoint_from v.endpoints;
  allowed_routes = v.allowed_routes;
}

pub record RouteWire : Type 0 where
  pub cidr : String
  pub via_node_id : String
  pub metric : Option String

abbrev pub route_from : RouteWire → Route
route_from v = record { cidr = v.cidr; via_node_id = v.via_node_id; metric = v.metric }

pub record DnsConfigWire : Type 0 where
  pub servers : List String
  pub search_domains : List String

abbrev pub dns_from : DnsConfigWire → DnsConfig
dns_from v = record { servers = v.servers; search_domains = v.search_domains }

pub record RelayEndpointWire : Type 0 where
  pub endpoint_id : String
  pub transport : String
  pub address : String

abbrev pub relay_endpoint_from : RelayEndpointWire → RelayEndpoint
relay_endpoint_from v = record {
  endpoint_id = v.endpoint_id;
  transport = v.transport;
  address = v.address;
}

pub record RelayRegionWire : Type 0 where
  pub region_id : String
  pub region_name : String
  pub country_code : String
  pub country_name : String
  pub city_code : String
  pub city_name : String
  pub cluster_id : String
  pub cluster_name : String
  pub endpoints : List RelayEndpointWire

abbrev pub if_given : String → Option String
if_given v = if is_empty v then none else some v

unfoldable pub region_from : RelayRegionWire → RelayRegion
region_from v = record {
  region_id = v.region_id;
  region_name = v.region_name;
  country_code = if_given v.country_code;
  country_name = if_given v.country_name;
  city_code = if_given v.city_code;
  city_name = if_given v.city_name;
  cluster_id = if_given v.cluster_id;
  cluster_name = if_given v.cluster_name;
  endpoints = map relay_endpoint_from v.endpoints;
}

pub record NetworkMapWire : Type 0 where
  pub self_user_id : String
  pub self_device_id : String
  pub self_node_id : String
  pub network_id : String
  pub revision : ℕ
  pub heartbeat_seconds : ℕ
  pub stun_servers : List String
  pub peers : List PeerWire
  pub routes : List RouteWire
  pub relay_regions : List RelayRegionWire
  pub dns : DnsConfigWire
  pub mtu : Option ℕ

unfoldable pub network_map_from : NetworkMapWire → NetworkMap
network_map_from v = record {
  self_user_id = v.self_user_id;
  self_device_id = v.self_device_id;
  self_node_id = v.self_node_id;
  network_id = v.network_id;
  revision = v.revision;
  heartbeat_seconds = v.heartbeat_seconds;
  stun_servers = v.stun_servers;
  peers = map peer_from v.peers;
  routes = map route_from v.routes;
  relay_regions = map region_from v.relay_regions;
  dns = dns_from v.dns;
  mtu = v.mtu;
}

pub record PeerUpdateWire : Type 0 where
  pub network_id : String
  pub revision : ℕ
  pub peer : PeerWire

pub record PeerUpdate : Type 0 where
  pub network_id : String
  pub revision : ℕ
  pub peer : Peer

abbrev pub peer_update_from : PeerUpdateWire → PeerUpdate
peer_update_from v = record {
  network_id = v.network_id;
  revision = v.revision;
  peer = peer_from v.peer;
}

-- `PeerRemoveWire`, and `ControlWsPeerRemove`, which has the same fields
pub record PeerRemove : Type 0 where
  pub network_id : String
  pub revision : ℕ
  pub peer_node_id : String

pub record ActiveNetworkEnabled : Type 0 where
  pub user_id : String
  pub network_id : String
  pub reason : String

pub record NetworkRestartRequired : Type 0 where
  pub network_id : String
  pub revision : ℕ
  pub reason : String
  pub default_subnet_cidr : String

pub record DeviceIpReassigned : Type 0 where
  pub network_id : String
  pub device_id : String
  pub attachment_id : String
  pub virtual_ip : String
  pub reason : String

pub record PathOption : Type 0 where
  pub path_type : String
  pub endpoint : String
  pub priority : ℤ

pub record ConnectPlan : Type 0 where
  pub peer_node_id : String
  pub prefer_direct : Bool
  pub paths : List PathOption
  pub derp_cluster_id : String
  pub preferred_derp_node_ids : List String
  pub relay_ticket : Option RelayTicket

pub record ConnectionStateReport : Type 0 where
  pub network_id : String
  pub peer_node_id : String
  pub path : String
  pub state : String
  pub reason : Option String
  pub observed_rtt_ms : Option ℕ
  pub packet_loss_ppm : Option ℕ
  pub path_score : Option ℕ
  pub derp_node_id : Option String

pub record PathHealthReport : Type 0 where
  pub network_id : String
  pub peer_node_id : String
  pub path_type : String
  pub endpoint : Option String
  pub derp_node_id : Option String
  pub observed_rtt_ms : Option ℕ
  pub packet_loss_ppm : Option ℕ
  pub path_score : Option ℕ
  pub sampled_at_ms : ℕ

pub record NodeHelloAck : Type 0 where
  pub control_session_id : String
  pub heartbeat_seconds : ℕ
  pub network_revision : ℕ

pub record Pong : Type 0 where
  pub timestamp : ℤ

pub record ControlError : Type 0 where
  pub code : String
  pub message : String

pub record NodeHelloPayload : Type 0 where
  pub user_id : String
  pub device_id : String
  pub node_id : String
  pub network_id : String
  pub session_token : String
  pub node_public_key : String
  pub capabilities : List String

pub record ControlWsConfig : Type 0 where
  pub ws_url : String
  pub access_token : String
  pub session_token : String
  pub user_id : String
  pub device_id : String
  pub node_id : String
  pub node_public_key : String
  pub network_id : String
  pub capabilities : List String

abbrev pub hello_from : ControlWsConfig → NodeHelloPayload
hello_from v = record {
  user_id = v.user_id;
  device_id = v.device_id;
  node_id = v.node_id;
  network_id = v.network_id;
  session_token = v.session_token;
  node_public_key = v.node_public_key;
  capabilities = v.capabilities;
}

pub data ControlWsEvent : Type 0 where
  peer_update : PeerUpdate → ControlWsEvent
  peer_remove : PeerRemove → ControlWsEvent
  connect_plan : ConnectPlan → ControlWsEvent
  network_restart_required : NetworkRestartRequired → ControlWsEvent
  device_ip_reassigned : DeviceIpReassigned → ControlWsEvent
  active_network_enabled : ActiveNetworkEnabled → ControlWsEvent

pub record ControlSessionBootstrap : Type 0 where
  pub ack : NodeHelloAck
  pub network_map : NetworkMap
