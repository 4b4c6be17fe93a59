-- ===== src/Examples/Control.antt =====
-- The theorems about the control connection, at a codec that reads a message off its first byte.
use slan.Prelude.{
  ℕ, ◌≡◌, ◌≢◌, ◌≤◌, refl, String, true, List, [], ◌∷◌, ◌++◌, length, none, some, Result, ok, err,
  arith, eqb, concat, is_empty, trim, if◌then◌else◌,
}
use slan.Client.Action.{◌>>=◌, pure, fail, lift, gets, modify, fail_if, need}
use slan.Control.Stream.{TcpStream, Arrival, byte, fault, pause, read_exact, take_bytes}
use slan.Control.Frame.{encode_text_frame, decode_text_frame, apply_mask, from_be_bytes}
use slan.Control.Frame.RoundTrip.{arrivals, hears, decode-encode}
use slan.Control.Wire.{ControlWsEvent, peer_remove}
use slan.Control.Client.{
  Codec, ControlWsClient, Envelope, read_envelope, read_loop, read_response_envelope, read_event,
  drain_loop, drain_pending_events, decode_control_ws_event, format_control_error,
  is_control_ws_timeout_error, default_io_timeout,
}
use slan.Control.Client.Ending.{read_loop_ends}
use slan.Control.Client.Replies.{Comes, read_response-Comes}
use slan.Control.Client.Draining.{drain-Bounded, drain-swallows_error, drain-loses_byte, timed}

abbrev unused : {A : Type 0} → Result String A
unused = err "not used"

abbrev message_of : List ℕ → String
message_of bs =
    if eqb (length bs) 1 then "pong" else if eqb (length bs) 2 then "peer_remove" else "error"

abbrev codec : Codec
codec = record {
  Value = List ℕ;
  from_utf8 = λ bs. ok "text";
  encode_envelope = λ m. ok m.payload;
  decode_envelope = λ bs.
      ok (record { msg_type = message_of bs; request_id = none; message_id = none; payload = bs });
  encode_hello = λ h. ok (1 ∷ []);
  encode_map_request = λ n r. 2 ∷ [];
  encode_ping = λ t. 3 ∷ [];
  encode_connection_state = λ r. ok (4 ∷ []);
  encode_path_health = λ r. ok (5 ∷ []);
  decode_ack = λ v. unused;
  decode_map = λ v. unused;
  decode_pong = λ v. unused;
  decode_error = λ v. ok (record { code = "upstream"; message = "timed out" });
  display = λ v. "value";
  decode_peer_update = λ v. unused;
  decode_peer_remove =
      λ v. ok (record { network_id = "net"; revision = 1; peer_node_id = "node-b" });
  decode_connect_plan = λ v. unused;
  decode_restart = λ v. unused;
  decode_reassigned = λ v. unused;
  decode_enabled = λ v. unused;
}

-- a server frame with a payload of this length, no mask
abbrev frame : List ℕ → List Arrival
frame payload = arrivals (0x81 ∷ length payload ∷ payload)

abbrev stream_of : List Arrival → TcpStream
stream_of incoming = record {
  incoming = incoming;
  written = [];
  write_faults = [];
  read_timeout = none;
  write_timeout = none;
}

abbrev client_of : List Arrival → ControlWsClient
client_of incoming = record {
  stream = stream_of incoming;
  ack_target = none;
  queued_events = [];
  acked = [];
}

unfoldable pub control_runs : ℕ
unfolding ◌>>=◌ pure fail lift gets modify fail_if need read_exact take_bytes decode_text_frame
    apply_mask from_be_bytes read_envelope read_loop read_response_envelope read_event drain_loop
    drain_pending_events decode_control_ws_event format_control_error is_control_ws_timeout_error
    encode_text_frame is_empty trim
control_runs = 0

-- a removal of a peer, a byte that a pause holds up, and the answer to a ping
abbrev event_then_pong : ControlWsClient
event_then_pong = client_of (frame (8 ∷ 8 ∷ []) ++ pause ∷ frame (9 ∷ []))

abbrev pong_message : Envelope (List ℕ)
pong_message = record { msg_type = "pong"; request_id = none; message_id = none; payload = 9 ∷ [] }

abbrev removal : ControlWsEvent
removal = peer_remove (record { network_id = "net"; revision = 1; peer_node_id = "node-b" })

abbrev after_pong : ControlWsClient
after_pong = record (client_of []) { queued_events = removal ∷ [] }

ping_answered : read_response_envelope codec "pong" event_then_pong ≡ (ok pong_message, after_pong)
unfolding control_runs
ping_answered = refl

read_response-Comes_example :
    (es : List ControlWsEvent) × Comes codec "pong" event_then_pong es pong_message after_pong
    × after_pong.queued_events ≡ event_then_pong.queued_events ++ es
read_response-Comes_example =
    read_response-Comes codec "pong" event_then_pong pong_message after_pong ping_answered

read_loop_ends_example : (read_loop codec 9 "pong" event_then_pong).0 ≢ ok none
read_loop_ends_example = read_loop_ends codec 9 "pong" event_then_pong (omega arith)

decode-encode_example :
    decode_text_frame (hears (stream_of []) (encode_text_frame (9 ∷ 255 ∷ [])) (pause ∷ []))
    ≡ (ok (9 ∷ 255 ∷ []), stream_of (pause ∷ []))
decode-encode_example =
    decode-encode (stream_of []) (9 ∷ 255 ∷ []) (pause ∷ []) (omega arith, (omega arith, tt))
      (omega arith)

drain-Bounded_example :
    (drain_pending_events codec 50 2 event_then_pong).1.stream.read_timeout
      ≡ some default_io_timeout
    × ((es : List ControlWsEvent)
        → (drain_pending_events codec 50 2 event_then_pong).0 ≡ ok es
        → length es ≤ 2)
drain-Bounded_example = drain-Bounded codec 50 2 event_then_pong (omega arith)

-- an error of the server
abbrev refusing : ControlWsClient
refusing = client_of (frame (1 ∷ 2 ∷ 3 ∷ []))

abbrev error_message : Envelope (List ℕ)
error_message = record {
  msg_type = "error";
  request_id = none;
  message_id = none;
  payload = 1 ∷ 2 ∷ 3 ∷ [];
}

error_read : read_envelope codec (timed 50 refusing) ≡ (ok error_message, timed 50 (client_of []))
unfolding control_runs
error_read = refl

error_looks_quiet : is_control_ws_timeout_error (format_control_error codec (1 ∷ 2 ∷ 3 ∷ [])) ≡ true
unfolding control_runs
error_looks_quiet = refl

drain-swallows_error_example :
    drain_pending_events codec 50 1 refusing
    ≡ (ok [], timed default_io_timeout (timed 50 (client_of [])))
drain-swallows_error_example =
    drain-swallows_error codec 50 0 refusing (timed 50 (client_of [])) error_message (omega arith)
      refl error_read refl error_looks_quiet

-- the first byte of a frame, a timeout, and what follows
abbrev broken : ControlWsClient
broken = client_of (byte 0x81 ∷ fault "operation timed out" ∷ byte 1 ∷ byte 9 ∷ [])

timeout_looks_quiet :
    is_control_ws_timeout_error
      (concat ("read websocket frame header: " ∷ "operation timed out" ∷ []))
    ≡ true
unfolding control_runs
timeout_looks_quiet = refl

drain-loses_byte_example :
    ((drain_pending_events codec 50 3 broken).0 ≡ ok [])
    × ((drain_pending_events codec 50 3 broken).1.stream.incoming ≡ byte 1 ∷ byte 9 ∷ [])
drain-loses_byte_example =
    drain-loses_byte codec 50 2 broken 0x81 "operation timed out" (byte 1 ∷ byte 9 ∷ [])
      (omega arith) refl refl timeout_looks_quiet
