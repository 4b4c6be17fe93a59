-- ===== src/Client/Relay.antt =====
-- `SocketRelayClient` (client/app_core/crates/relay-client/src/runtime.rs): the client of the relay
-- daemon, over UDP.
pub mod Acks
pub mod Linked
use slan.Prelude.{
  ℕ, String, Bool, true, false, List, [], ◌∷◌, null, length, not, Option, none, some, Result, ok,
  err, map_err, concat, ◌==◌, eqb, if◌then◌else◌,
}
use slan.AppCore.Derp.{RelayTicket}
use slan.AppCore.Connection.{ConnectionState, connected, relay_path}
use slan.Auth.{Crypto}
use slan.Client.Action.{Action, go_on, ◌>>=◌, ◌>>◌, pure, fail, lift, gets, modify, fail_if, need}
use slan.Client.Codes.{RelayClientError, message_only, from_wire, into_client_error}
use slan.Client.Derp.{received}
use slan.Client.System.{
  System, IoError, would_block, timed_out, connection_refused, other_kind, ActiveSocket, tcp, udp,
  decimal, is_bracketed, split_once,
}

pub data RelayDaemonRequest : Type 0 where
  ping : RelayDaemonRequest
  -- participant_id
  attach : String → RelayTicket → RelayDaemonRequest
  -- session_id, from_participant_id, payload_b64
  forward : String → String → String → RelayDaemonRequest
  -- session_id, participant_id
  detach : String → String → RelayDaemonRequest

pub data RelayDaemonResponse : Type 0 where
  pong : RelayDaemonResponse
  -- session_id, peer_participant_id
  attached : String → String → RelayDaemonResponse
  -- session_id, to_participant_id, bytes_forwarded
  forwarded : String → String → ℕ → RelayDaemonResponse
  -- session_id, participant_id
  detached : String → String → RelayDaemonResponse
  -- session_id, from_participant_id, payload_b64
  relayed : String → String → String → RelayDaemonResponse
  -- code, message
  refused : Option String → String → RelayDaemonResponse

-- serde_json and `{:?}`, which are not in the repository
pub record Json : Type 0 where
  pub encode_request : RelayDaemonRequest → Result String (List ℕ)
  pub decode_response : List ℕ → Result String RelayDaemonResponse
  pub debug : RelayDaemonResponse → String

pub record RelayClientState (Tcp Udp State : Type 0) : Type 0 where
  pub poisoned : Bool
  pub relay_url : Option String
  pub session_id : Option String
  pub local_participant_id : Option String
  pub peer_participant_id : Option String
  pub active_socket : Option (ActiveSocket Tcp Udp)
  pub system : State

abbrev pub text_error : {A : Type 0} → Result String A → Result RelayClientError A
text_error r = map_err message_only r

-- the acknowledgement of a packet of so many bytes
unfoldable pub check_ack :
    Json → String → ℕ → RelayDaemonResponse → Result RelayClientError (Unit {0})
check_ack j session_id n (forwarded ack_session_id to bytes_forwarded) =
    if not (ack_session_id == session_id)
    then err (
        message_only (
          concat (
            "relay forward ack session mismatch: expected " ∷ session_id ∷ ", got " ∷ ack_session_id
            ∷ [])))
    else if not (eqb bytes_forwarded n)
    then err (
        message_only (
          concat (
            "relay forward ack bytes mismatch: expected "
            ∷ decimal n
            ∷ ", got "
            ∷ decimal bytes_forwarded
            ∷ [])))
    else ok tt
check_ack j session_id n (refused code message) =
    err (into_client_error (from_wire code message) "relay forward failed")
check_ack j session_id n other =
    err (message_only (concat ("unexpected relay forward response: " ∷ j.debug other ∷ [])))

-- what a poll makes of a response
unfoldable pub payload_of :
    Crypto → Option RelayDaemonResponse → Result RelayClientError (Option (List ℕ))
payload_of c (some (relayed session_id from payload_b64)) = elim (c.decode_standard payload_b64) [
  | ok bytes ↦ ok (some bytes)
  | err e ↦ err (message_only (concat ("decode relay packet payload failed: " ∷ e ∷ [])))
]
payload_of c (some (refused code message)) =
    err (into_client_error (from_wire code message) "relay receive failed")
payload_of c (some other) = ok none
payload_of c none = ok none

-- `connect_timeout` is in milliseconds
module _ (S : System) (c : Crypto) (j : Json) (connect_timeout : ℕ) where
  abbrev pub Relay : Type 0
  Relay = RelayClientState S.Tcp S.Udp S.State

  abbrev pub Method : Type 0 → Type 0
  Method A = Action Relay RelayClientError A

  unfoldable pub new_relay : Relay
  new_relay = record {
    poisoned = false;
    relay_url = none;
    session_id = none;
    local_participant_id = none;
    peer_participant_id = none;
    active_socket = none;
    system = S.initial;
  }

  abbrev pub ask : {E A : Type 0} → (S.State → Result E A × S.State) → Method (Result E A)
  ask f s = let (r, system') = f s.system in (ok r, record s { system = system' })

  abbrev pub call : {A : Type 0} → String → (S.State → Result String A × S.State) → Method A
  call failure f = ask f >>= λ r. lift (map_err (λ e. message_only (concat (failure ∷ e ∷ []))) r)

  abbrev pub lock : Method (Unit {0})
  lock = gets (λ s. s.poisoned) >>= λ p. fail_if p (message_only "relay client state poisoned")

  abbrev pub set_waiting : S.Udp → Bool → Option ℕ → Method (Unit {0})
  set_waiting socket true timeout =
      call "set relay udp socket nonblocking failed: " (S.udp_set_nonblocking socket true)
  set_waiting socket false timeout =
      call "set relay udp read timeout failed: " (S.udp_set_read_timeout socket timeout)

  abbrev pub reset_waiting : S.Udp → Bool → Method (Unit {0})
  reset_waiting socket true =
      call "reset relay udp socket nonblocking failed: " (S.udp_set_nonblocking socket false)
  reset_waiting socket false =
      call "reset relay udp read timeout failed: " (S.udp_set_read_timeout socket none)

  abbrev pub is_zero : Option ℕ → Bool
  is_zero none = false
  is_zero (some d) = eqb d 0

  -- A datagram that does not decode ends the method at once, any other error only after the reset.
  abbrev pub take_datagram :
      Result IoError (List ℕ) → Method (Result RelayClientError (Option RelayDaemonResponse))
  take_datagram (ok bytes) = do
    response ← lift (
        map_err (λ e. message_only (concat ("decode relay daemon response failed: " ∷ e ∷ [])))
          (j.decode_response bytes))
    pure (ok (some response))
  take_datagram (err (would_block t)) = pure (ok none)
  take_datagram (err (timed_out t)) = pure (ok none)
  take_datagram (err (connection_refused t)) = pure (ok none)
  take_datagram (err (other_kind t)) =
      pure (err (message_only (concat ("read relay udp socket failed: " ∷ t ∷ []))))

  unfoldable pub read_udp_response : S.Udp → Option ℕ → Method (Option RelayDaemonResponse)
  read_udp_response socket timeout = do
    set_waiting socket (is_zero timeout) timeout
    r ← ask (S.udp_recv socket 65536)
    result ← take_datagram r
    reset_waiting socket (is_zero timeout)
    lift result

  unfoldable pub send_udp_request : S.Udp → RelayDaemonRequest → Method (Unit {0})
  send_udp_request socket request = do
    bytes ← lift (
        map_err (λ e. message_only (concat ("encode relay daemon request failed: " ∷ e ∷ [])))
          (j.encode_request request))
    call "send packet to relay udp socket failed: " (S.udp_send socket bytes)
    pure tt

  abbrev pub linked : RelayTicket → String → String → S.Udp → Relay → Relay
  linked ticket session_id peer_participant_id socket s = record s {
    relay_url = some ticket.relay_url;
    session_id = some session_id;
    local_participant_id = some ticket.src_node_id;
    peer_participant_id = some peer_participant_id;
    active_socket = some (udp socket);
  }

  abbrev pub take_answer : RelayTicket → S.Udp → RelayDaemonResponse → Method ConnectionState
  take_answer ticket socket (attached session_id peer_participant_id) = do
    lock
    modify (linked ticket session_id peer_participant_id socket)
    pure (connected relay_path)
  take_answer ticket socket (refused code message) =
      fail (into_client_error (from_wire code message) "relay attach failed")
  take_answer ticket socket other =
      fail (message_only (concat ("unexpected relay attach response: " ∷ j.debug other ∷ [])))

  unfoldable pub connect_udp : RelayTicket → String → Method ConnectionState
  connect_udp ticket authority = do
    socket ←
        call "bind udp socket failed: "
          (S.udp_bind (if is_bracketed authority then "[::]:0" else "0.0.0.0:0"))
    call (concat ("udp relay connect to " ∷ authority ∷ " failed: " ∷ []))
        (S.udp_connect socket authority)
    send_udp_request socket (attach ticket.src_node_id ticket)
    answer ← read_udp_response socket (some connect_timeout)
    response ← need answer (message_only "timed out waiting for relay attach response")
    take_answer ticket socket response

  abbrev pub connect_with : RelayTicket → String → String → Method ConnectionState
  connect_with ticket scheme authority =
      if scheme == "tcp"
      then fail (message_only "tcp relay daemon protocol not implemented; use udp relay url")
      else if scheme == "udp"
      then connect_udp ticket authority
      else fail (message_only (concat ("unsupported relay url scheme: " ∷ scheme ∷ [])))

  unfoldable pub connect : RelayTicket → Method ConnectionState
  connect ticket = do
    parts ←
        need (split_once "://" ticket.relay_url)
          (message_only (concat ("invalid relay url: " ∷ ticket.relay_url ∷ [])))
    connect_with ticket parts.0 parts.1

  abbrev pub its_socket : Method (ActiveSocket S.Tcp S.Udp)
  its_socket = gets (λ s. s.active_socket) >>= λ o.
      need o (message_only "relay client has no active connection")

  abbrev pub send_to :
      List ℕ → Option String → Option String → ActiveSocket S.Tcp S.Udp → Method (Unit {0})
  send_to bytes session local (tcp stream) =
      call "send packet to relay tcp socket failed: " (S.tcp_write_all stream bytes)
  send_to bytes session local (udp socket) = do
    session_id ← need session (message_only "relay client has no attached session")
    from_participant_id ← need local (message_only "relay client has no local participant id")
    send_udp_request socket (forward session_id from_participant_id (c.encode_standard bytes))
    answer ← read_udp_response socket (some connect_timeout)
    response ← need answer (message_only "timed out waiting for relay forward ack")
    lift (check_ack j session_id (length bytes) response)

  unfoldable pub send_transport_packet : List ℕ → Method (Unit {0})
  send_transport_packet bytes = do
    fail_if (null bytes) (message_only "cannot send empty packet via relay")
    lock
    session ← gets (λ s. s.session_id)
    local ← gets (λ s. s.local_participant_id)
    socket ← its_socket
    send_to bytes session local socket

  abbrev pub poll_from : ActiveSocket S.Tcp S.Udp → Method (Option (List ℕ))
  poll_from (tcp stream) = do
    call "set relay tcp socket nonblocking failed: " (S.tcp_set_nonblocking stream true)
    r ← ask (S.tcp_read stream 2048)
    ask (S.tcp_set_nonblocking stream false)
    lift (text_error (received "read relay tcp socket failed: " true r))
  poll_from (udp socket) = do answer ← read_udp_response socket (some 0); lift (payload_of c answer)

  unfoldable pub poll_transport_packet : Method (Option (List ℕ))
  poll_transport_packet = do lock; socket ← its_socket; poll_from socket
