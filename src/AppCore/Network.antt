-- ===== src/AppCore/Network.antt =====
-- client/app_core/crates/app-core/src/network: the network map, its peers, routes and relay regions.
use slan.Prelude.{ℕ, String, Bool, Option, List}
use slan.Prelude.Int.{ℤ}

pub record DnsConfig : Type 0 where
  pub servers : List String
  pub search_domains : List String

pub record RelayEndpoint : Type 0 where
  pub endpoint_id : String
  pub transport : String
  pub address : String

pub record RelayRegion : Type 0 where
  pub region_id : String
  pub region_name : String
  pub country_code : Option String
  pub country_name : Option String
  pub city_code : Option String
  pub city_name : Option String
  pub cluster_id : Option String
  pub cluster_name : Option String
  pub endpoints : List RelayEndpoint

pub record Endpoint : Type 0 where
  pub endpoint_type : String
  pub address : String
  pub updated_at : ℤ

pub record Peer : Type 0 where
  pub node_id : String
  pub device_id : String
  pub public_key : String
  pub status : String
  pub relay_allowed : Bool
  pub virtual_ips : List String
  pub endpoints : List Endpoint
  pub allowed_routes : List String

pub record Route : Type 0 where
  pub cidr : String
  pub via_node_id : String
  pub metric : Option String

pub record NetworkMap : Type 0 where
  pub self_user_id : String
  pub self_device_id : String
  pub self_node_id : String
  pub network_id : String
  pub revision : ℕ
  pub heartbeat_seconds : ℕ
  pub stun_servers : List String
  pub peers : List Peer
  pub routes : List Route
  pub relay_regions : List RelayRegion
  pub dns : DnsConfig
  pub mtu : Option ℕ
