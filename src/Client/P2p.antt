-- ===== src/Client/P2p.antt =====
-- `SocketP2PConnector` (client/app_core/crates/p2p/src): a TCP connection to a peer.
pub mod Connecting
use slan.Prelude.{
  ℕ, String, Bool, true, false, List, [], ◌∷◌, null, Option, none, some, Result, ok, err, map_err,
  concat, ◌==◌, if◌then◌else◌,
}
use slan.AppCore.Connection.{ConnectionState, connected, failed, p2p_path}
use slan.Client.Action.{
  Action, go_on, ◌>>=◌, ◌>>◌, pure, fail, lift, gets, modify, fail_if, need, next,
}
use slan.Client.System.{System}
use slan.Client.Derp.{received}

pub record PeerCandidate : Type 0 where
  pub peer_node_id : String
  pub endpoint : String
  pub candidate_type : String

-- the connector: its timeout in milliseconds, and its state behind the lock
pub record P2pState (Tcp State : Type 0) : Type 0 where
  pub connect_timeout : ℕ
  pub poisoned : Bool
  pub active_stream : Option Tcp
  pub peer_node_id : Option String
  pub system : State

module _ (S : System) where
  abbrev pub P2p : Type 0
  P2p = P2pState S.Tcp S.State

  abbrev pub Method : Type 0 → Type 0
  Method A = Action P2p String A

  unfoldable pub new_p2p : ℕ → P2p
  new_p2p connect_timeout = record {
    connect_timeout = connect_timeout;
    poisoned = false;
    active_stream = none;
    peer_node_id = none;
    system = S.initial;
  }

  -- `Default`
  abbrev pub default_p2p : P2p
  default_p2p = new_p2p 1000

  abbrev pub ask : {E A : Type 0} → (S.State → Result E A × S.State) → Method (Result E A)
  ask f s = let (r, system') = f s.system in (ok r, record s { system = system' })

  abbrev pub call : {A : Type 0} → String → (S.State → Result String A × S.State) → Method A
  call failure f = ask f >>= λ r. lift (map_err (λ e. concat (failure ∷ e ∷ [])) r)

  unfoldable pub connect_tcp : String → Method S.Tcp
  connect_tcp endpoint = do
    addrs ← call (concat ("resolve tcp endpoint " ∷ endpoint ∷ ": " ∷ [])) (S.resolve endpoint)
    addr ← next addrs (concat ("no tcp address resolved for " ∷ endpoint ∷ []))
    timeout ← gets (λ s. s.connect_timeout)
    call (concat ("tcp connect to " ∷ endpoint ∷ " failed: " ∷ [])) (S.tcp_connect addr timeout)

  -- the result of a method as a value
  abbrev pub attempt : {A : Type 0} → Method A → Method (Result String A)
  attempt m s = let (r, s') = m s in (ok r, s')

  abbrev pub lock : Method (Unit {0})
  lock = gets (λ s. s.poisoned) >>= λ p. fail_if p "p2p state poisoned"

  abbrev pub linked : PeerCandidate → S.Tcp → P2p → P2p
  linked peer stream s = record s {
    active_stream = some stream;
    peer_node_id = some peer.peer_node_id;
  }

  abbrev pub take_stream : PeerCandidate → Result String S.Tcp → Method ConnectionState
  take_stream peer (err reason) = pure (failed reason)
  take_stream peer (ok stream) = do lock; modify (linked peer stream); pure (connected p2p_path)

  unfoldable pub connect : PeerCandidate → Method ConnectionState
  connect peer =
      if peer.candidate_type == "tcp"
      then (attempt (connect_tcp peer.endpoint) >>= λ r. take_stream peer r)
      else if peer.candidate_type == "udp"
      then pure (
          failed (
            concat (
              "udp p2p connect not implemented for " ∷ peer.peer_node_id ∷ " via " ∷ peer.endpoint
              ∷ [])))
      else pure (
          failed (
            concat (
              "unsupported p2p candidate type for " ∷ peer.peer_node_id ∷ ": " ∷ peer.candidate_type
              ∷ [])))

  abbrev pub its_stream : Method S.Tcp
  its_stream = gets (λ s. s.active_stream) >>= λ o. need o "p2p connector has no active connection"

  unfoldable pub send_transport_packet : List ℕ → Method (Unit {0})
  send_transport_packet bytes = do
    fail_if (null bytes) "cannot send empty packet via p2p"
    lock
    stream ← its_stream
    call "send packet to p2p socket failed: " (S.tcp_write_all stream bytes)

  unfoldable pub poll_transport_packet : Method (Option (List ℕ))
  poll_transport_packet = do
    lock
    stream ← its_stream
    call "set p2p socket nonblocking failed: " (S.tcp_set_nonblocking stream true)
    r ← ask (S.tcp_read stream 2048)
    ask (S.tcp_set_nonblocking stream false)
    lift (received "read p2p socket failed: " true r)
