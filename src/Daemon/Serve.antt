-- ===== src/Daemon/Serve.antt =====
-- server/server-relay/crates/relay-daemon/src/daemon.rs: the loop over the datagrams. The JSON
-- codec is `serde_json`, a parameter; the socket's answers come with each event.
use slan.Prelude.{
  ℕ, String, List, [], ◌∷◌, ◌++◌, Option, none, some, Result, ok, err, concat, take, ◌*◌,
}
use slan.Auth.{Crypto}
use slan.Daemon.Errors.{RelayRuntimeError}
use slan.Daemon.Protocol.{SocketAddr, ClientRequest, ServerResponse, error}
use slan.Daemon.Runtime.{RelayRuntime, Reply, handle_request}

pub record Codec : Type 0 where
  pub decode_request : List ℕ → Result String ClientRequest
  pub encode_response : ServerResponse → Result String (List ℕ)

-- One turn of the loop: what `recv_from` gave, what the clock reads, and the fault of a send to an
-- address, if it fails.
pub data Event : Type 0 where
  recv_fault : String → Event
  datagram : SocketAddr → List ℕ → Option ℕ → (SocketAddr → Option String) → Event

abbrev pub Outbox : Type 0
Outbox = List (SocketAddr × List ℕ)

pub record Daemon : Type 0 where
  pub runtime : RelayRuntime
  -- what went out, the newest last
  pub sent : Outbox

abbrev pub Turn : Type 0
Turn = Result String (Unit {0}) × Daemon

abbrev pub proceed : Turn → (Daemon → Turn) → Turn
proceed (ok _, d) rest = rest d
proceed (err message, d) rest = (err message, d)

module _ (k : Codec) where
  abbrev put_on_wire : Daemon → SocketAddr → Option String → Result String (List ℕ) → Turn
  put_on_wire d target fault (err e) = (err (concat ("encode relay response: " ∷ e ∷ [])), d)
  put_on_wire d target (some e) (ok payload) =
      (err (concat ("send relay udp response: " ∷ e ∷ [])), d)
  put_on_wire d target none (ok payload) =
      (ok tt, record d { sent = d.sent ++ (target, payload) ∷ [] })

  unfoldable pub send_response :
      Daemon → (SocketAddr → Option String) → SocketAddr → ServerResponse → Turn
  send_response d faults target response =
      put_on_wire d target (faults target) (k.encode_response response)

  abbrev then_send : (SocketAddr → Option String) → SocketAddr → ServerResponse → Turn → Turn
  then_send faults target response (err e, d) = (err e, d)
  then_send faults target response (ok _, d) = send_response d faults target response

  abbrev send_peer :
      Daemon → (SocketAddr → Option String) → Option (SocketAddr × ServerResponse) → Turn
  send_peer d faults none = (ok tt, d)
  send_peer d faults (some (peer_addr, message)) = send_response d faults peer_addr message

  -- the peer's packet goes out before the reply
  unfoldable pub answer :
      Daemon → (SocketAddr → Option String) → SocketAddr → Result RelayRuntimeError Reply → Turn
  answer d faults source (ok (response, peer)) =
      then_send faults source response (send_peer d faults peer)
  answer d faults source (err e) =
      send_response d faults source (error (record { code = e.code; message = e.message }))

  abbrev handle_decoded :
      Crypto
      → Option ℕ
      → Daemon
      → (SocketAddr → Option String)
      → SocketAddr
      → Result String ClientRequest
      → Turn
  handle_decoded c clock d faults source (err e) =
      (err (concat ("decode relay request: " ∷ e ∷ [])), d)
  handle_decoded c clock d faults source (ok request) =
      let (result, runtime') = handle_request c clock d.runtime source request in
      answer (record d { runtime = runtime' }) faults source result

  -- the body of the loop; the buffer holds 64 KiB of a datagram
  unfoldable pub turn : Crypto → Daemon → Event → Turn
  turn c d (recv_fault e) = (err (concat ("recv relay udp packet: " ∷ e ∷ [])), d)
  turn c d (datagram source payload clock faults) =
      handle_decoded c clock d faults source (k.decode_request (take (64 * 1024) payload))

  -- The loop over what arrives: it leaves with the first error, and the datagrams that are left
  -- stay unread.
  unfoldable pub serve : Crypto → Daemon → List Event → Turn
  serve c d [] = (ok tt, d)
  serve c d (e ∷ es) = proceed (turn c d e) (λ d'. serve c d' es)
