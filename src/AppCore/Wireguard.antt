-- ===== src/AppCore/Wireguard.antt =====
-- client/app_core/crates/app-core/src/wireguard.rs
use slan.Prelude.{ℕ, String, Option, List}

pub record AllowedIp : Type 0 where
  pub cidr : String

pub record WireGuardKeyPair : Type 0 where
  pub public_key : String
  pub private_key : String

pub record TunnelKeyMaterial : Type 0 where
  pub device_id : Option String
  pub node_id : Option String
  pub key_pair : WireGuardKeyPair
  -- in milliseconds
  pub created_at_ms : ℕ

pub record WireGuardPeerConfig : Type 0 where
  pub peer_node_id : Option String
  pub public_key : String
  pub preshared_key : Option String
  pub endpoint : Option String
  pub allowed_ips : List AllowedIp
  pub persistent_keepalive_seconds : Option ℕ

pub record WireGuardInterfaceConfig : Type 0 where
  pub interface_name : Option String
  pub key_pair : WireGuardKeyPair
  pub listen_port : Option ℕ
  pub mtu : Option ℕ
  pub addresses : List String
  pub dns_servers : List String
  pub peers : List WireGuardPeerConfig

pub data TunnelTransport : Type 0 where
  p2p relay derp : TunnelTransport

pub record WireGuardRuntimeStats : Type 0 where
  pub transport : TunnelTransport
  pub peer_public_key : String
  pub selected_endpoint : Option String
  pub latest_handshake_at_ms : Option ℕ
  pub bytes_received : ℕ
  pub bytes_sent : ℕ
