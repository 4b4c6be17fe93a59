-- ===== src/AppCore/Derp.antt =====
-- client/app_core/crates/app-core/src/derp: DERP nodes, link snapshots, switch events and tickets.
-- Numbers are the u16, u32 and u64 of the source; arithmetic on them is bounded where it is done.
use slan.Prelude.{ℕ, String, Bool, Option, List}

pub data DerpTransport : Type 0 where
  udp tcp quic : DerpTransport

pub record DerpNodeMeta : Type 0 where
  pub cluster_id : String
  pub region_id : String
  pub country_code : Option String
  pub country_name : Option String
  pub city_code : Option String
  pub city_name : Option String
  pub node_id : String
  pub host : String
  pub port : ℕ
  pub transport : DerpTransport
  pub priority : ℕ
  pub tags : List String

pub record ProbeSample : Type 0 where
  pub rtt_ms : ℕ
  pub timed_out : Bool
  pub packet_loss_ppm : ℕ
  pub sampled_at_ms : ℕ

pub data DerpLinkState : Type 0 where
  connecting ready suspect failed closed : DerpLinkState

pub record DerpHealth : Type 0 where
  pub rtt_ms_ewma : ℕ
  pub loss_ppm : ℕ
  pub timeout_count : ℕ
  pub consecutive_failures : ℕ
  pub last_probe_at_ms : ℕ
  pub last_recv_at_ms : ℕ
  pub score : ℕ

pub record DerpLinkSnapshot : Type 0 where
  pub meta : DerpNodeMeta
  pub state : DerpLinkState
  pub health : DerpHealth
  pub is_active : Bool

pub record DerpPoolState : Type 0 where
  pub cluster_id : String
  pub session_id : String
  pub active_node_id : Option String
  pub links : List DerpLinkSnapshot
  pub switch_epoch : ℕ

pub data SwitchReason : Type 0 where
  bootstrap_preferred probe_timeout high_rtt high_loss send_failure manual : SwitchReason

pub record DerpSwitchEvent : Type 0 where
  pub cluster_id : String
  pub from_node_id : Option String
  pub to_node_id : String
  pub reason : SwitchReason
  pub happened_at_ms : ℕ

-- the client's ticket, whose session key may be missing
pub record RelayTicket : Type 0 where
  pub ticket_id : String
  pub network_id : String
  pub session_id : String
  pub src_node_id : String
  pub dst_node_id : String
  pub derp_cluster_id : Option String
  pub country_code : Option String
  pub city_code : Option String
  pub allowed_derp_node_ids : List String
  pub relay_url : String
  pub expires_at : String
  pub session_key : Option String
  pub signature : String
