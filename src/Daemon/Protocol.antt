-- ===== src/Daemon/Protocol.antt =====
-- server/server-relay/crates/relay-daemon/src/protocol: requests, replies and the ticket on the
-- wire; errors/ticket_map.rs. An address is the printed form of a `SocketAddr`'s host and its port.
use slan.Prelude.{ℕ, String, List, Option, Bool, true, ◌&&◌, ◌≡◌, ◌↔◌, eqb, ◌==◌, eq_iff, arith}
use slan.RelayCore.Ticket.{RelayTicket}

pub record SocketAddr : Type 0 where
  pub host : String
  pub port : ℕ

abbrev pub same_addr : SocketAddr → SocketAddr → Bool
same_addr a b = a.host == b.host && eqb a.port b.port

pub same_addr_iff : (a b : SocketAddr) → (same_addr a b ≡ true) ↔ (a ≡ b)
same_addr_iff a b = ground (arith, eq_iff a.host b.host)

pub record RelayTicketWire : Type 0 where
  pub ticket_id : String
  pub network_id : String
  pub session_id : String
  pub src_node_id : String
  pub dst_node_id : String
  pub derp_cluster_id : Option String
  pub country_code : Option String
  pub city_code : Option String
  pub allowed_derp_node_ids : List String
  pub relay_url : String
  pub expires_at : String
  pub session_key : String
  pub signature : String

unfoldable pub to_relay_ticket : RelayTicketWire → RelayTicket
to_relay_ticket t = record {
  ticket_id = t.ticket_id;
  network_id = t.network_id;
  session_id = t.session_id;
  src_node_id = t.src_node_id;
  dst_node_id = t.dst_node_id;
  derp_cluster_id = t.derp_cluster_id;
  country_code = t.country_code;
  city_code = t.city_code;
  allowed_derp_node_ids = t.allowed_derp_node_ids;
  relay_url = t.relay_url;
  expires_at = t.expires_at;
  session_key = t.session_key;
  signature = t.signature;
}

pub data ClientRequest : Type 0 where
  ping : ClientRequest
  -- participant_id, ticket
  attach : String → RelayTicketWire → ClientRequest
  -- session_id, from_participant_id, payload_b64
  forward : String → String → String → ClientRequest
  -- session_id, participant_id
  detach : String → String → ClientRequest

pub record AttachAck : Type 0 where
  pub session_id : String
  pub peer_participant_id : String

pub record ForwardAck : Type 0 where
  pub session_id : String
  pub to_participant_id : String
  pub bytes_forwarded : ℕ

pub record RelayPacketMessage : Type 0 where
  pub session_id : String
  pub from_participant_id : String
  pub payload_b64 : String

pub record ErrorResponse : Type 0 where
  pub code : String
  pub message : String

pub data ServerResponse : Type 0 where
  pong : ServerResponse
  attached : AttachAck → ServerResponse
  forwarded : ForwardAck → ServerResponse
  -- session_id, participant_id
  detached : String → String → ServerResponse
  packet : RelayPacketMessage → ServerResponse
  error : ErrorResponse → ServerResponse
