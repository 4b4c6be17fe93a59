-- ===== src/Examples/Sockets.antt =====
-- The theorems about the socket clients, on a system that accepts every call and hears one byte.
use slan.Prelude.{ℕ, suc, ◌≡◌, ◌≢◌, ◌↔◌, refl, String, false, List, [], ◌∷◌, some, Result, ok, err}
use slan.AppCore.Derp.{ready}
use slan.Client.Action.{◌>>=◌, pure, fail, lift, gets, modify, fail_if, need, next}
use slan.Client.System.{System, udp, decimal, digits_before, split_once, strip_prefix}
use slan.Client.Derp
use slan.Client.Derp.{Derp, new_derp, snapshot}
use slan.Client.Derp.Reach
use slan.Client.Derp.Reach.{connect, attach}
use slan.Client.Derp.Ready.{Refused, send-Refused}
use slan.Client.P2p
use slan.Client.P2p.{PeerCandidate, new_p2p, default_p2p}
use slan.Client.P2p.Connecting.{Attempt, connect-Attempt}
use slan.Client.Relay
use slan.Client.Relay.{
  Json, RelayDaemonResponse, pong, attached, forwarded, check_ack, new_relay, read_udp_response,
  send_udp_request,
}
use slan.Client.Relay.Acks.{Sent, send_transport_packet_iff}
use slan.Client.Relay.Linked
use slan.Client.Relay.Linked.{IsLinked, ReachableRelay, ReachableRelay-IsLinked}
use slan.Examples.Base.{crypto}
use slan.Examples.Client.{node, ticket}

abbrev quiet : System
quiet = record {
  State = ℕ;
  Addr = Unit {0};
  Tcp = Unit {0};
  Udp = Unit {0};
  initial = 0;
  now_ms = λ s. s;
  resolve = λ a s. (ok (tt ∷ []), s);
  tcp_connect = λ a t s. (ok tt, s);
  tcp_write_all = λ k b s. (ok tt, suc s);
  tcp_read = λ k n s. (ok [], s);
  tcp_set_nonblocking = λ k b s. (ok tt, s);
  udp_bind = λ a s. (ok tt, s);
  udp_connect = λ k a s. (ok tt, s);
  udp_send = λ k b s. (ok 1, suc s);
  udp_recv = λ k n s. (ok (7 ∷ []), suc s);
  udp_set_nonblocking = λ k b s. (ok tt, s);
  udp_set_read_timeout = λ k t s. (ok tt, s);
}

abbrev attached_client : Derp quiet
attached_client =
    Reach.after quiet (Reach.after quiet (new_derp quiet) (connect (node "near" 10)))
      (attach ticket)

-- what a test of the socket clients computes with
unfoldable pub socket_runs : ℕ
unfolding ◌>>=◌ pure fail lift gets modify fail_if need next decimal digits_before split_once
    strip_prefix new_derp Derp.snapshot Derp.connect_node Derp.connect_tcp Derp.connect_udp
    Derp.attach_ticket Derp.require_ready_state Reach.after
socket_runs = 0

fresh_unready : (snapshot quiet (new_derp quiet)).state ≢ ready
unfolding socket_runs
fresh_unready = λ h. cc

send-Refused_example :
    Refused quiet (Derp.send_transport_packet quiet (7 ∷ []) (new_derp quiet)) (new_derp quiet)
send-Refused_example = send-Refused quiet (new_derp quiet) (7 ∷ []) fresh_unready

-- a codec that reads every datagram but the empty one as an answer
abbrev answer_of : List ℕ → Result String RelayDaemonResponse
answer_of (b ∷ bs) = ok (attached "session-1" "node-b")
answer_of [] = err "expected value"

abbrev json : Json
json = record {
  encode_request = λ q. ok (7 ∷ []);
  decode_response = answer_of;
  debug = λ r. "response";
}

-- a daemon that acknowledges three bytes
abbrev acknowledging : Json
acknowledging = record json { decode_response = λ b. ok (forwarded "session-1" "node-b" 3) }

-- a client that has attached, at a time of the system
abbrev attached_at : ℕ → Relay.Relay quiet crypto acknowledging 1000
attached_at now = record {
  poisoned = false;
  relay_url = some "udp://127.0.0.1:9";
  session_id = some "session-1";
  local_participant_id = some "node-a";
  peer_participant_id = some "node-b";
  active_socket = some (udp tt);
  system = now;
}

packet_sent :
    Relay.send_transport_packet quiet crypto acknowledging 1000 (7 ∷ 8 ∷ 9 ∷ []) (attached_at 0)
    ≡ (ok tt, attached_at 2)
unfolding socket_runs Relay.send_transport_packet send_udp_request read_udp_response check_ack
packet_sent = refl

send_transport_packet_iff_example :
    (Relay.send_transport_packet quiet crypto acknowledging 1000 (7 ∷ 8 ∷ 9 ∷ []) (attached_at 0)
      ≡ (ok tt, attached_at 2))
    ↔ Sent quiet crypto acknowledging 1000 (7 ∷ 8 ∷ 9 ∷ []) (attached_at 0) (attached_at 2)
send_transport_packet_iff_example =
    send_transport_packet_iff quiet crypto acknowledging 1000 (7 ∷ 8 ∷ 9 ∷ []) (attached_at 0)
      (attached_at 2)

abbrev linked_client : Relay.Relay quiet crypto json 1000
linked_client =
    Linked.after quiet crypto json 1000 (new_relay quiet crypto json 1000)
      (Linked.connecting ticket)

ReachableRelay-IsLinked_example : IsLinked quiet crypto json 1000 linked_client
ReachableRelay-IsLinked_example =
    ReachableRelay-IsLinked quiet crypto json 1000
      (Linked.called (Linked.connecting ticket) Linked.made)

abbrev candidate : PeerCandidate
candidate = record { peer_node_id = "node-b"; endpoint = "127.0.0.1:9"; candidate_type = "tcp" }

connect-Attempt_example :
    Attempt quiet candidate (default_p2p quiet) (P2p.connect quiet candidate (default_p2p quiet))
unfolding new_p2p
connect-Attempt_example = connect-Attempt quiet candidate (default_p2p quiet) refl
