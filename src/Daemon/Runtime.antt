-- ===== src/Daemon/Runtime.antt =====
-- server/server-relay/crates/relay-daemon/src/runtime: the handling of a request. A handler returns
-- its reply, with the packet for the peer if there is one, or an error, and the new runtime.
use slan.Prelude.{
  ℕ, String, ◌&&◌, not, [], ◌∷◌, Option, none, some, Result, ok, err, ◌>>=◌, ◌>>◌, ok_or, map_err,
  reject_if, unwrap_or, concat, null, length, ◌==◌, if◌then◌else◌,
}
use slan.Prelude.Table
use slan.Prelude.Table.{Table}
use slan.RelayCore.Error.{RelayError, session_already_exists}
use slan.RelayCore.Session.{RelaySession, same_session}
use slan.RelayCore.Ticket.{RelayTicket}
use slan.Auth.{Crypto, with_options}
use slan.SessionStore
use slan.UdpRelay
use slan.UdpRelay.{UdpRelay, ForwardedPacket}
use slan.Daemon.Errors.{RelayRuntimeError, relay_runtime_error, new}
use slan.Daemon.Protocol.{
  SocketAddr, same_addr, RelayTicketWire, to_relay_ticket, ClientRequest, ping, attach, forward,
  detach, ServerResponse, pong, attached, forwarded, detached, packet,
}

abbrev pub SessionEndpoints : Type 0
SessionEndpoints = Table (Table SocketAddr)

pub record RelayRuntime : Type 0 where
  pub relay : UdpRelay
  pub endpoints : SessionEndpoints

abbrev pub Reply : Type 0
Reply = ServerResponse × Option (SocketAddr × ServerResponse)

abbrev pub Outcome : Type 0
Outcome = Result RelayRuntimeError Reply × RelayRuntime

unfoldable pub init : Option String → Option String → RelayRuntime
init relay_url_prefix ticket_signing_secret = record {
  relay = record {
    store = SessionStore.new;
    validator = with_options relay_url_prefix ticket_signing_secret;
  };
  endpoints = Table.empty;
}

-- the session that a ticket describes
abbrev pub session_of : RelayTicket → RelaySession
session_of t = record {
  session_id = t.session_id;
  source_device_id = t.src_node_id;
  target_device_id = t.dst_node_id;
  network_id = t.network_id;
}

abbrev pub peer_in : RelayTicket → String → String
peer_in t participant_id = if participant_id == t.src_node_id then t.dst_node_id else t.src_node_id

-- What follows `attach_with_ticket`: a session that is there already must be the same one.
unfoldable pub accept_session :
    UdpRelay → RelayTicket → Result RelayError (Unit {0}) → Result RelayRuntimeError (Unit {0})
accept_session r t (ok _) = ok tt
accept_session r t (err session_already_exists) = do
  existing ← map_err relay_runtime_error (UdpRelay.find_session r t.session_id)
  reject_if (not (same_session existing (session_of t)))
      (new "session_conflict" "relay session already exists with different participants")
accept_session r t (err e) = err (relay_runtime_error e)

-- `entry(session).or_default().insert(participant, source)`
unfoldable pub bind_endpoint : SessionEndpoints → String → String → SocketAddr → SessionEndpoints
bind_endpoint e session_id participant_id source =
    Table.insert session_id
      (Table.insert participant_id source (unwrap_or (Table.get session_id e) Table.empty)) e

abbrev pub finish_attach :
    RelayRuntime
    → SocketAddr
    → String
    → RelayTicket
    → UdpRelay
    → Result RelayRuntimeError (Unit {0})
    → Outcome
finish_attach r source participant_id t relay' (err e) = (err e, record r { relay = relay' })
finish_attach r source participant_id t relay' (ok _) = (
  ok (
    attached (record { session_id = t.session_id; peer_participant_id = peer_in t participant_id }),
    none,
  ),
  record {
    relay = relay';
    endpoints = bind_endpoint r.endpoints t.session_id participant_id source;
  },
)

unfoldable pub attach_ticket :
    Crypto → Option ℕ → RelayRuntime → SocketAddr → String → RelayTicket → Outcome
attach_ticket c clock r source participant_id t =
    if not (participant_id == t.src_node_id) && not (participant_id == t.dst_node_id)
    then (err (new "participant_not_in_ticket" "participant is not part of relay ticket"), r)
    else (let (result, relay') = UdpRelay.attach_with_ticket c clock r.relay t (session_of t) in
        finish_attach r source participant_id t relay' (accept_session relay' t result))

unfoldable pub handle_attach :
    Crypto → Option ℕ → RelayRuntime → SocketAddr → String → RelayTicketWire → Outcome
handle_attach c clock r source participant_id wire =
    attach_ticket c clock r source participant_id (to_relay_ticket wire)

-- The participants of a session, if the sender is among them at its own address.
unfoldable pub authorize :
    SessionEndpoints → SocketAddr → String → String → Result RelayRuntimeError (Table SocketAddr)
authorize e source session_id participant_id = do
  participants ←
      ok_or (Table.get session_id e)
        (new "session_not_attached" "relay session has no attached participants")
  bound_addr ←
      ok_or (Table.get participant_id participants)
        (new "participant_not_attached" "participant has not attached to relay session")
  reject_if (not (same_addr bound_addr source))
      (new "participant_address_mismatch" "participant is bound to a different udp address")
  ok participants

abbrev pub deliver :
    Crypto → Table SocketAddr → String → ForwardedPacket → Result RelayRuntimeError Reply
deliver c participants from_participant_id f = do
  peer_addr ←
      ok_or (Table.get f.to_device_id participants)
        (new "peer_not_attached" "target participant has not attached to relay session")
  ok (
    forwarded (record {
      session_id = f.session_id;
      to_participant_id = f.to_device_id;
      bytes_forwarded = length f.payload;
    }),
    some (
      peer_addr,
      packet (record {
        session_id = f.session_id;
        from_participant_id = from_participant_id;
        payload_b64 = c.encode_standard f.payload;
      }),
    ),
  )

unfoldable pub handle_forward :
    Crypto → RelayRuntime → SocketAddr → String → String → String → Outcome
handle_forward c r source session_id from_participant_id payload_b64 = (
  do
    participants ← authorize r.endpoints source session_id from_participant_id
    payload ←
        map_err (λ e. new "invalid_payload_b64" (concat ("invalid payload_b64: " ∷ e ∷ [])))
          (c.decode_standard payload_b64)
    f ← map_err relay_runtime_error (
        UdpRelay.forward r.relay (record {
          session_id = session_id;
          from_device_id = from_participant_id;
          payload = payload;
        }))
    deliver c participants from_participant_id f,
  r,
)

-- The reply to a detachment, where the removal of the session may have failed.
abbrev pub detach_reply :
    String → String → Result RelayError (Unit {0}) → Result RelayRuntimeError Reply
detach_reply session_id participant_id result = do
  map_err relay_runtime_error result
  ok (detached session_id participant_id, none)

-- What is left of the participants decides whether the session goes too.
unfoldable pub remove_participant : RelayRuntime → String → String → Table SocketAddr → Outcome
remove_participant r session_id participant_id rest =
    if null rest
    then (let (result, relay') = UdpRelay.detach r.relay session_id in
        (
          detach_reply session_id participant_id result,
          record { relay = relay'; endpoints = Table.remove session_id r.endpoints },
        ))
    else (
      ok (detached session_id participant_id, none),
      record r { endpoints = Table.insert session_id rest r.endpoints },
    )

abbrev pub finish_detach :
    RelayRuntime → String → String → Result RelayRuntimeError (Table SocketAddr) → Outcome
finish_detach r session_id participant_id (err e) = (err e, r)
finish_detach r session_id participant_id (ok participants) =
    remove_participant r session_id participant_id (Table.remove participant_id participants)

unfoldable pub handle_detach : RelayRuntime → SocketAddr → String → String → Outcome
handle_detach r source session_id participant_id =
    finish_detach r session_id participant_id
      (authorize r.endpoints source session_id participant_id)

unfoldable pub handle_request :
    Crypto → Option ℕ → RelayRuntime → SocketAddr → ClientRequest → Outcome
handle_request c clock r source ping = (ok (pong, none), r)
handle_request c clock r source (attach participant_id ticket) =
    handle_attach c clock r source participant_id ticket
handle_request c clock r source (forward session_id from_participant_id payload_b64) =
    handle_forward c r source session_id from_participant_id payload_b64
handle_request c clock r source (detach session_id participant_id) =
    handle_detach r source session_id participant_id
