-- ===== src/Client/Derp.antt =====
-- `SocketDerpClient` (client/app_core/crates/relay-client/src/runtime.rs): one connection to a DERP
-- node over TCP or UDP.
pub mod Ready
pub mod Reach
use slan.Prelude.{
  ℕ, String, Bool, true, false, List, [], ◌∷◌, null, any, not, ◌&&◌, Option, none, some, Result, ok,
  err, map_err, concat, ◌==◌, if◌then◌else◌, unwrap_or, is_some,
}
use slan.AppCore.Derp.{
  DerpTransport, DerpNodeMeta, ProbeSample, DerpLinkState, connecting, ready, closed, DerpHealth,
  DerpLinkSnapshot, RelayTicket,
}
use slan.Client.Action.{
  Action, go_on, ◌>>=◌, ◌>>◌, pure, fail, lift, gets, modify, fail_if, need, next,
}
use slan.Client.System.{
  System, IoError, would_block, io_text, ActiveSocket, tcp, udp, authority_of, has_colon,
}
use slan.Client.Links.{DerpClient, u32_max}

pub record DerpClientState (Tcp Udp State : Type 0) : Type 0 where
  pub poisoned : Bool
  pub meta : Option DerpNodeMeta
  pub ticket : Option RelayTicket
  pub active_socket : Option (ActiveSocket Tcp Udp)
  pub last_probe_at_ms : ℕ
  pub last_recv_at_ms : ℕ
  pub closed : Bool
  pub system : State

abbrev pub derp_poisoned : String
derp_poisoned = "derp client state poisoned"

-- the node of a client that has none
abbrev pub blank_meta : DerpNodeMeta
blank_meta = record {
  cluster_id = "";
  region_id = "";
  country_code = none;
  country_name = none;
  city_code = none;
  city_name = none;
  node_id = "";
  host = "";
  port = 0;
  transport = DerpTransport.udp;
  priority = 0;
  tags = [];
}

-- what a read gives: nothing at the end of a stream or where it would block
abbrev pub received : String → Bool → Result IoError (List ℕ) → Result String (Option (List ℕ))
received failure at_end (err (would_block t)) = ok none
received failure at_end (err e) = err (concat (failure ∷ io_text e ∷ []))
received failure at_end (ok b) = if at_end && null b then ok none else ok (some b)

abbrev pub got_packet : Result String (Option (List ℕ)) → Bool
got_packet (ok (some b)) = true
got_packet _ = false

abbrev pub link_state : Bool → Bool → Bool → DerpLinkState
link_state is_closed has_socket has_ticket =
    if is_closed
    then closed
    else if not has_socket
    then connecting
    else if not has_ticket
    then connecting
    else ready

-- the checks of `attach_ticket`, on the node
abbrev pub other_cluster : RelayTicket → DerpNodeMeta → Bool
other_cluster t m = elim t.derp_cluster_id [
  | none ↦ false
  | some cluster_id ↦ not (cluster_id == m.cluster_id)
]

abbrev pub other_node : RelayTicket → DerpNodeMeta → Bool
other_node t m =
    not (null t.allowed_derp_node_ids) && not (any (λ id. id == m.node_id) t.allowed_derp_node_ids)

module _ (S : System) where
  abbrev pub Socket : Type 0
  Socket = ActiveSocket S.Tcp S.Udp

  abbrev pub Derp : Type 0
  Derp = DerpClientState S.Tcp S.Udp S.State

  abbrev pub Method : Type 0 → Type 0
  Method A = Action Derp String A

  unfoldable pub new_derp : Derp
  new_derp = record {
    poisoned = false;
    meta = none;
    ticket = none;
    active_socket = none;
    last_probe_at_ms = 0;
    last_recv_at_ms = 0;
    closed = false;
    system = S.initial;
  }

  -- the changes of the methods
  abbrev pub attached : RelayTicket → Derp → Derp
  attached ticket s = record s { ticket = some ticket; closed = false }

  abbrev pub heard : Result String (Option (List ℕ)) → Derp → Derp
  heard result s = if got_packet result then record s { last_recv_at_ms = S.now_ms s.system } else s

  abbrev pub probed_at : ℕ → Derp → Derp
  probed_at now s = record s { last_probe_at_ms = now }

  abbrev pub closed_down : Derp → Derp
  closed_down s = record s { active_socket = none; ticket = none; closed = true }

  -- a call of the system, whose error is not yet looked at
  abbrev pub ask : {E A : Type 0} → (S.State → Result E A × S.State) → Method (Result E A)
  ask f s = let (r, system') = f s.system in (ok r, record s { system = system' })

  -- a call whose error ends the method, behind a text
  abbrev pub call : {A : Type 0} → String → (S.State → Result String A × S.State) → Method A
  call failure f = ask f >>= λ r. lift (map_err (λ e. concat (failure ∷ e ∷ [])) r)

  unfoldable pub connect_tcp : DerpNodeMeta → Method Socket
  connect_tcp meta = do
    let authority = authority_of meta.host meta.port
    addrs ←
        call (concat ("resolve derp tcp endpoint " ∷ authority ∷ ": " ∷ [])) (S.resolve authority)
    addr ← next addrs (concat ("no derp tcp address resolved for " ∷ authority ∷ []))
    stream ←
        call (concat ("tcp derp connect to " ∷ authority ∷ " failed: " ∷ []))
          (S.tcp_connect addr 1000)
    pure (tcp stream)

  unfoldable pub connect_udp : DerpNodeMeta → Method Socket
  connect_udp meta = do
    let authority = authority_of meta.host meta.port
    socket ←
        call "bind udp socket failed: "
          (S.udp_bind (if has_colon meta.host then "[::]:0" else "0.0.0.0:0"))
    call (concat ("udp derp connect to " ∷ authority ∷ " failed: " ∷ []))
        (S.udp_connect socket authority)
    pure (udp socket)

  abbrev pub open_socket : DerpNodeMeta → DerpTransport → Method Socket
  open_socket meta DerpTransport.tcp = connect_tcp meta
  open_socket meta DerpTransport.udp = connect_udp meta
  open_socket meta DerpTransport.quic =
      fail (concat ("quic derp transport not implemented for " ∷ meta.node_id ∷ []))

  abbrev pub lock : Method (Unit {0})
  lock = gets (λ s. s.poisoned) >>= λ p. fail_if p derp_poisoned

  unfoldable pub connect_node : DerpNodeMeta → Method (Unit {0})
  connect_node meta = do
    socket ← open_socket meta meta.transport
    lock
    modify (λ s. record s {
      meta = some meta;
      active_socket = some socket;
      closed = false;
      last_recv_at_ms = S.now_ms s.system;
    })

  unfoldable pub attach_ticket : RelayTicket → Method (Unit {0})
  attach_ticket ticket = do
    lock
    node ← gets (λ s. s.meta)
    meta ← need node "derp client has no connected node"
    fail_if (other_cluster ticket meta) (
        concat (
          "relay ticket cluster "
          ∷ unwrap_or ticket.derp_cluster_id ""
          ∷ " does not match derp node cluster "
          ∷ meta.cluster_id
          ∷ []))
    fail_if (other_node ticket meta)
        (concat ("relay ticket does not allow derp node " ∷ meta.node_id ∷ []))
    modify (attached ticket)

  unfoldable pub require_ready_state : Method (Unit {0})
  require_ready_state = do
    node ← gets (λ s. s.meta)
    need node "derp client has no connected node"
    held ← gets (λ s. s.ticket)
    need held "derp client has no attached ticket"
    is_closed ← gets (λ s. s.closed)
    fail_if is_closed "derp client is closed"

  abbrev pub its_socket : Method Socket
  its_socket = gets (λ s. s.active_socket) >>= λ o. need o "derp client has no active socket"

  abbrev pub send_to : List ℕ → Socket → Method (Unit {0})
  send_to bytes (tcp stream) =
      call "send packet to derp tcp socket failed: " (S.tcp_write_all stream bytes)
  send_to bytes (udp socket) =
      call "send packet to derp udp socket failed: " (S.udp_send socket bytes) >>= λ n. pure tt

  unfoldable pub send_transport_packet : List ℕ → Method (Unit {0})
  send_transport_packet bytes = do
    fail_if (null bytes) "cannot send empty packet to derp node"
    lock
    require_ready_state
    socket ← its_socket
    send_to bytes socket

  abbrev pub receive_from : Socket → Method (Result String (Option (List ℕ)))
  receive_from (tcp stream) = do
    call "set derp tcp socket nonblocking failed: " (S.tcp_set_nonblocking stream true)
    r ← ask (S.tcp_read stream 2048)
    pure (received "read derp tcp socket failed: " true r)
  receive_from (udp socket) = do
    call "set derp udp socket nonblocking failed: " (S.udp_set_nonblocking socket true)
    r ← ask (S.udp_recv socket 2048)
    pure (received "read derp udp socket failed: " false r)

  abbrev pub reset : Socket → Method (Unit {0})
  reset (tcp stream) = ask (S.tcp_set_nonblocking stream false) >>= λ r. pure tt
  reset (udp socket) =
      call "reset derp udp socket nonblocking failed: " (S.udp_set_nonblocking socket false)

  unfoldable pub poll_transport_packet : Method (Option (List ℕ))
  poll_transport_packet = do
    lock
    require_ready_state
    socket ← its_socket
    result ← receive_from socket
    modify (heard result)
    again ← its_socket
    reset again
    lift result

  unfoldable pub probe : Method ProbeSample
  probe = do
    lock
    require_ready_state
    now ← gets (λ s. S.now_ms s.system)
    modify (probed_at now)
    pure (record { rtt_ms = 0; timed_out = false; packet_loss_ppm = 0; sampled_at_ms = now })

  unfoldable pub snapshot : Derp → DerpLinkSnapshot
  snapshot s =
      if s.poisoned
      then record {
        meta = blank_meta;
        state = DerpLinkState.failed;
        health = record {
          rtt_ms_ewma = 0;
          loss_ppm = 0;
          timeout_count = 0;
          consecutive_failures = 0;
          last_probe_at_ms = S.now_ms s.system;
          last_recv_at_ms = S.now_ms s.system;
          score = u32_max;
        };
        is_active = false;
      }
      else record {
        meta = unwrap_or s.meta blank_meta;
        state = link_state s.closed (is_some s.active_socket) (is_some s.ticket);
        health = record {
          rtt_ms_ewma = 0;
          loss_ppm = 0;
          timeout_count = 0;
          consecutive_failures = 0;
          last_probe_at_ms = s.last_probe_at_ms;
          last_recv_at_ms = s.last_recv_at_ms;
          score = (unwrap_or s.meta blank_meta).priority;
        };
        is_active = false;
      }

  unfoldable pub close : Method (Unit {0})
  close = do lock; modify closed_down

  -- as a client of the pool
  unfoldable pub socket_derp_client : DerpClient
  socket_derp_client = record {
    Client = Derp;
    new = new_derp;
    connect_node = λ s meta. connect_node meta s;
    attach_ticket = λ s ticket. attach_ticket ticket s;
    send_transport_packet = λ s bytes. send_transport_packet bytes s;
    poll_transport_packet = poll_transport_packet;
    probe = probe;
    snapshot = snapshot;
    close = close;
  }
