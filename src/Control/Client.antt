-- ===== src/Control/Client.antt =====
-- `ControlWsClient` (client/app_core/crates/control-ws-client/src/lib.rs). serde_json and
-- `String::from_utf8` are the parameter `Codec`. Of an acknowledgement, which goes over a connection of
-- its own whose outcome is ignored, the id is kept.
pub mod Replies
pub mod Ending
pub mod Draining
use slan.Prelude.{
  ℕ, zero, suc, String, Bool, true, false, ◌&&◌, ◌||◌, not, List, [], ◌∷◌, ◌++◌, map, length, bytes,
  codes, leb, eqb, any, ◌+◌, Option, none, some, Result, ok, err, map_err, concat, trim, is_empty,
  ◌==◌, if◌then◌else◌,
}
use slan.Prelude.Int.{ℤ}
use slan.AppCore.Network.{NetworkMap}
use slan.Client.Action.{Action, go_on, ◌>>=◌, ◌>>◌, pure, fail, lift, gets, modify, fail_if, need}
use slan.Client.System.{strip_prefix}
use slan.Control.Stream.{
  TcpStream, Arrival, byte, fault, pause, read, write_all, set_read_timeout, set_write_timeout,
}
use slan.Control.Frame.{encode_text_frame, decode_text_frame, labelled}
use slan.Control.Url.{
  WsEndpoint, AckTarget, parse_ws_url, from_ws_url, upgrade_request, first_response_line,
}
use slan.Control.Wire.{
  NetworkMapWire, network_map_from, PeerUpdateWire, peer_update_from, PeerRemove,
  ActiveNetworkEnabled, NetworkRestartRequired, DeviceIpReassigned, ConnectPlan,
  ConnectionStateReport, PathHealthReport, NodeHelloAck, Pong, ControlError, NodeHelloPayload,
  ControlWsConfig, hello_from, ControlWsEvent, peer_update, peer_remove, connect_plan,
  network_restart_required, device_ip_reassigned, active_network_enabled, ControlSessionBootstrap,
}

pub record Envelope (Value : Type 0) : Type 0 where
  pub msg_type : String
  pub request_id : Option String
  pub message_id : Option String
  pub payload : Value

pub record Codec : Type 1 where
  pub Value : Type 0
  pub from_utf8 : List ℕ → Result String String
  pub encode_envelope : Envelope Value → Result String (List ℕ)
  pub decode_envelope : List ℕ → Result String (Envelope Value)
  pub encode_hello : NodeHelloPayload → Result String Value
  pub encode_map_request : String → ℕ → Value
  pub encode_ping : ℤ → Value
  pub encode_connection_state : ConnectionStateReport → Result String Value
  pub encode_path_health : PathHealthReport → Result String Value
  pub decode_ack : Value → Result String NodeHelloAck
  -- the `map` of a `NetworkMapResponse`
  pub decode_map : Value → Result String NetworkMapWire
  pub decode_pong : Value → Result String Pong
  pub decode_error : Value → Result String ControlError
  pub display : Value → String
  pub decode_peer_update : Value → Result String PeerUpdateWire
  pub decode_peer_remove : Value → Result String PeerRemove
  pub decode_connect_plan : Value → Result String ConnectPlan
  pub decode_restart : Value → Result String NetworkRestartRequired
  pub decode_reassigned : Value → Result String DeviceIpReassigned
  pub decode_enabled : Value → Result String ActiveNetworkEnabled

pub record ControlWsClient : Type 0 where
  pub stream : TcpStream
  pub ack_target : Option AckTarget
  pub queued_events : List ControlWsEvent
  -- the messages for which an acknowledgement was tried
  pub acked : List String

-- milliseconds
abbrev pub default_io_timeout : ℕ
default_io_timeout = 5000

-- `u8::to_ascii_lowercase`
abbrev pub lower : ℕ → ℕ
lower c = if leb 65 c && leb c 90 then c + 32 else c

abbrev pub begins : List ℕ → List ℕ → Bool
begins [] cs = true
begins (p ∷ ps) [] = false
begins (p ∷ ps) (c ∷ cs) = eqb p c && begins ps cs

-- `contains`
abbrev pub contains : List ℕ → List ℕ → Bool
contains part [] = begins part []
contains part (c ∷ cs) = begins part (c ∷ cs) || contains part cs

unfoldable pub is_control_ws_timeout_error : String → Bool
is_control_ws_timeout_error error =
    let text = map lower (codes error) in
    contains (codes "timed out") text
    || contains (codes "would block") text
    || contains (codes "resource temporarily unavailable") text
    || contains (codes "os error 35") text

abbrev pub starts_with : String → String → Bool
starts_with part s = elim (strip_prefix part s) [ none ↦ false | some _ ↦ true ]

abbrev pub Method : Type 0 → Type 0
Method A = Action ControlWsClient String A

-- a step of the stream, as a step of its client
abbrev pub on_stream : {A : Type 0} → Action TcpStream String A → Method A
on_stream m s = let (r, stream') = m s.stream in (r, record s { stream = stream' })

abbrev pub push_event : ControlWsEvent → ControlWsClient → ControlWsClient
push_event e s = record s { queued_events = s.queued_events ++ e ∷ [] }

abbrev pub pop_event : List ControlWsEvent → ControlWsClient → ControlWsClient
pop_event rest s = record s { queued_events = rest }

-- the message is acknowledged if there is somewhere to do so
abbrev pub acknowledge : Option AckTarget → Option String → List String → List String
acknowledge (some target) (some id) acked = acked ++ id ∷ []
acknowledge target message_id acked = acked

abbrev pub acknowledged : Option String → ControlWsClient → ControlWsClient
acknowledged message_id s = record s { acked = acknowledge s.ack_target message_id s.acked }

-- the result of a method as a value
abbrev pub attempt : {A : Type 0} → Method A → Method (Result String A)
attempt m s = let (r, s') = m s in (ok r, s')

module _ (C : Codec) where
  abbrev pub Message : Type 0
  Message = Envelope C.Value

  abbrev pub prefixed : {A B : Type 0} → String → (A → B) → Result String A → Result String B
  prefixed text f (ok a) = ok (f a)
  prefixed text f (err e) = err (concat (text ∷ e ∷ []))

  unfoldable pub decode_control_ws_event : Message → Result String ControlWsEvent
  decode_control_ws_event m =
      if m.msg_type == "peer_update"
      then prefixed "decode peer_update: " (λ u. peer_update (peer_update_from u))
          (C.decode_peer_update m.payload)
      else if m.msg_type == "peer_remove"
      then prefixed "decode peer_remove: " peer_remove (C.decode_peer_remove m.payload)
      else if m.msg_type == "connect_plan"
      then prefixed "decode connect_plan: " connect_plan (C.decode_connect_plan m.payload)
      else if m.msg_type == "network_restart_required"
      then prefixed "decode network_restart_required: " network_restart_required
          (C.decode_restart m.payload)
      else if m.msg_type == "device_ip_reassigned"
      then prefixed "decode device_ip_reassigned: " device_ip_reassigned
          (C.decode_reassigned m.payload)
      else if m.msg_type == "active_network_enabled"
      then prefixed "decode active_network_enabled: " active_network_enabled
          (C.decode_enabled m.payload)
      else err (concat ("unexpected control ws event: " ∷ m.msg_type ∷ []))

  unfoldable pub format_control_error : C.Value → String
  format_control_error payload = elim (C.decode_error payload) [
    | ok e ↦ if is_empty (trim e.message) then e.code else concat (e.code ∷ ": " ∷ e.message ∷ [])
    | err _ ↦ C.display payload
  ]

  unfoldable pub send_envelope : Message → Method (Unit {0})
  send_envelope m = do
    payload ← lift (map_err (λ e. concat ("encode ws envelope: " ∷ e ∷ [])) (C.encode_envelope m))
    on_stream (labelled "write websocket frame: " (write_all (encode_text_frame payload)))
    on_stream (labelled "flush websocket frame: " (write_all []))

  abbrev pub envelope_of : List ℕ → Method Message
  envelope_of payload = do
    m ← lift (map_err (λ e. concat ("decode ws envelope: " ∷ e ∷ [])) (C.decode_envelope payload))
    modify (acknowledged m.message_id)
    pure m

  unfoldable pub read_envelope : Method Message
  read_envelope = on_stream decode_text_frame >>= λ payload. envelope_of payload

  -- what is not the expected message is an event, which waits, or an error
  abbrev pub queue_or_fail :
      String → Result String ControlWsEvent → Method (Option Message) → Method (Option Message)
  queue_or_fail expected (ok e) rest = modify (push_event e) >>= λ _. rest
  queue_or_fail expected (err _) rest =
      fail (concat ("unexpected control ws response while waiting for " ∷ expected ∷ []))

  abbrev pub sort_message : String → Message → Method (Option Message) → Method (Option Message)
  sort_message expected m rest =
      if m.msg_type == "error"
      then fail (format_control_error m.payload)
      else if m.msg_type == expected
      then pure (some m)
      else queue_or_fail expected (decode_control_ws_event m) rest

  -- the loop, at most so many rounds; `none` where they do not do
  unfoldable pub read_loop : ℕ → String → Method (Option Message)
  read_loop zero expected = pure none
  read_loop (suc n) expected = read_envelope >>= λ m. sort_message expected m (read_loop n expected)

  -- Each round takes bytes that have arrived.
  unfoldable pub read_response_envelope : String → Method Message
  read_response_envelope expected = do
    rounds ← gets (λ s. length s.stream.incoming)
    answer ← read_loop (suc rounds) expected
    need answer "out of rounds"

  abbrev pub event_of : Message → Method ControlWsEvent
  event_of m =
      if m.msg_type == "error"
      then fail (format_control_error m.payload)
      else lift (decode_control_ws_event m)

  abbrev pub next_event : List ControlWsEvent → Method ControlWsEvent
  next_event (e ∷ es) = modify (pop_event es) >>= λ _. pure e
  next_event [] = do m ← read_envelope; event_of m

  unfoldable pub read_event : Method ControlWsEvent
  read_event = gets (λ s. s.queued_events) >>= λ es. next_event es

  abbrev pub add_event :
      ControlWsEvent → Result String (List ControlWsEvent) → Result String (List ControlWsEvent)
  add_event e (ok es) = ok (e ∷ es)
  add_event e (err x) = err x

  abbrev pub after_read :
      Method (Result String (List ControlWsEvent))
      → Result String ControlWsEvent
      → Method (Result String (List ControlWsEvent))
  after_read rest (ok e) = rest >>= λ r. pure (add_event e r)
  after_read rest (err x) = pure (if is_control_ws_timeout_error x then ok [] else err x)

  -- the `for` loop of `drain_pending_events`
  unfoldable pub drain_loop : ℕ → Method (Result String (List ControlWsEvent))
  drain_loop zero = pure (ok [])
  drain_loop (suc n) = attempt read_event >>= λ r. after_read (drain_loop n) r

  abbrev pub reset_text : Result String (List ControlWsEvent) → String
  reset_text (ok _) = "reset read timeout: "
  reset_text (err _) = "reset read timeout after error: "

  unfoldable pub drain_pending_events : ℕ → ℕ → Method (List ControlWsEvent)
  drain_pending_events timeout limit = do
    on_stream (labelled "set drain read timeout: " (set_read_timeout timeout))
    r ← drain_loop limit
    on_stream (labelled (reset_text r) (set_read_timeout default_io_timeout))
    lift r

  abbrev pub message : String → String → C.Value → Message
  message msg_type request_id payload = record {
    msg_type = msg_type;
    request_id = some request_id;
    message_id = none;
    payload = payload;
  }

  -- the check after `read_response_envelope`, which has made it already
  abbrev pub expect : String → String → Message → Method (Unit {0})
  expect msg_type text m = fail_if (not (m.msg_type == msg_type)) (concat (text ∷ m.msg_type ∷ []))

  unfoldable pub decode_network_map_response : C.Value → Result String NetworkMap
  decode_network_map_response payload =
      prefixed "decode network_map_response: " network_map_from (C.decode_map payload)

  unfoldable pub bootstrap_session : ControlWsConfig → Method ControlSessionBootstrap
  bootstrap_session config = do
    hello ←
        lift (prefixed "encode node_hello payload: " (λ v. v) (C.encode_hello (hello_from config)))
    send_envelope (message "node_hello" "node-hello" hello)
    ack_env ← read_response_envelope "node_hello_ack"
    expect "node_hello_ack" "unexpected control ws response: " ack_env
    ack ← lift (prefixed "decode node_hello_ack: " (λ a. a) (C.decode_ack ack_env.payload))
    network_env ← read_response_envelope "network_map_response"
    expect "network_map_response" "unexpected control ws response after node_hello_ack: "
        network_env
    network_map ← lift (decode_network_map_response network_env.payload)
    pure (record { ack = ack; network_map = network_map })

  unfoldable pub request_network_map_since : String → ℕ → Method NetworkMap
  request_network_map_since network_id last_revision = do
    send_envelope (
        message "network_map_request" "network-map" (C.encode_map_request network_id last_revision))
    response ← read_response_envelope "network_map_response"
    expect "network_map_response" "unexpected network map response: " response
    lift (decode_network_map_response response.payload)

  abbrev pub request_network_map : String → Method NetworkMap
  request_network_map network_id = request_network_map_since network_id 0

  unfoldable pub ping : ℤ → Method Pong
  ping timestamp = do
    send_envelope (message "ping" "ping" (C.encode_ping timestamp))
    response ← read_response_envelope "pong"
    expect "pong" "unexpected control ws response to ping: " response
    lift (prefixed "decode pong: " (λ p. p) (C.decode_pong response.payload))

  unfoldable pub send_connection_state : ConnectionStateReport → Method (Unit {0})
  send_connection_state report = do
    payload ←
        lift
          (prefixed "encode connection_state payload: " (λ v. v) (C.encode_connection_state report))
    send_envelope (message "connection_state" "connection-state" payload)

  unfoldable pub send_path_health_report : PathHealthReport → Method (Unit {0})
  send_path_health_report report = do
    payload ←
        lift (prefixed "encode path_health_report payload: " (λ v. v) (C.encode_path_health report))
    send_envelope (message "path_health_report" "path-health" payload)
