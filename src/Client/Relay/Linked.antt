-- ===== src/Client/Relay/Linked.antt =====
-- What holds of a `SocketRelayClient` after any calls
-- (client/app_core/crates/relay-client/src/runtime.rs).
use slan.Prelude.{
  ℕ, String, Bool, true, false, List, Option, none, some, Result, ok, err, if◌then◌else◌,
}
use slan.AppCore.Derp.{RelayTicket}
use slan.Auth.{Crypto}
use slan.Client.Action.{modify}
use slan.Client.Action.Keeps.{
  Keeps, Keeps-bind, Keeps-pure, Keeps-fail, Keeps-lift, Keeps-gets, Keeps-fail_if, Keeps-need,
  Keeps-modify,
}
use slan.Client.System.{
  System, IoError, would_block, timed_out, connection_refused, other_kind, ActiveSocket, tcp, udp,
}
use slan.Client.Relay.{
  Json, RelayDaemonRequest, RelayDaemonResponse, attached, refused, Relay, Method, new_relay, ask,
  set_waiting, reset_waiting, take_datagram, read_udp_response, send_udp_request, linked,
  take_answer, connect_udp, connect, send_to, send_transport_packet, poll_from,
  poll_transport_packet,
}

-- no connection, or a UDP socket with the session and the participant it was attached with
pub data Linked {T U : Type 0}
    : Option (ActiveSocket T U) → Option String → Option String → Type 0 where
  idle : Linked none none none
  tied :
      (k : U) (session_id participant_id : String)
      → Linked (some (udp k)) (some session_id) (some participant_id)

-- a call of the client
pub data RelayCall : Type 0 where
  connecting : RelayTicket → RelayCall
  sending : List ℕ → RelayCall
  polling : RelayCall

module _ (S : System) (c : Crypto) (j : Json) (wait : ℕ) where
  abbrev pub IsLinked : Relay S c j wait → Type 0
  IsLinked s = Linked s.active_socket s.session_id s.local_participant_id

  abbrev Sound : {A : Type 0} → Method S c j wait A → Type 0
  Sound m = Keeps IsLinked m

  ask-Sound : {E A : Type 0} (f : S.State → Result E A × S.State) → Sound (ask S c j wait f)
  ask-Sound f = record { holds = λ s n. n }

  ruleset steps = (
    Keeps-bind, Keeps-pure, Keeps-fail, Keeps-lift, Keeps-gets, Keeps-fail_if, Keeps-need,
    ask-Sound,
  )

  set_waiting-Sound : (k : S.Udp) (b : Bool) (t : Option ℕ) → Sound (set_waiting S c j wait k b t)
  set_waiting-Sound k true t = search steps depth 14
  set_waiting-Sound k false t = search steps depth 14

  reset_waiting-Sound : (k : S.Udp) (b : Bool) → Sound (reset_waiting S c j wait k b)
  reset_waiting-Sound k true = search steps depth 14
  reset_waiting-Sound k false = search steps depth 14

  take_datagram-Sound : (r : Result IoError (List ℕ)) → Sound (take_datagram S c j wait r)
  take_datagram-Sound (ok b) = search steps depth 14
  take_datagram-Sound (err (would_block t)) = search steps
  take_datagram-Sound (err (timed_out t)) = search steps
  take_datagram-Sound (err (connection_refused t)) = search steps
  take_datagram-Sound (err (other_kind t)) = search steps

  read-Sound : (k : S.Udp) (t : Option ℕ) → Sound (read_udp_response S c j wait k t)
  unfolding read_udp_response
  read-Sound k t =
      search (steps, set_waiting-Sound, take_datagram-Sound, reset_waiting-Sound) depth 14

  request-Sound : (k : S.Udp) (q : RelayDaemonRequest) → Sound (send_udp_request S c j wait k q)
  unfolding send_udp_request
  request-Sound k q = search steps depth 14

  linked-Sound :
      (t : RelayTicket) (session peer : String) (k : S.Udp)
      → Sound (modify (linked S c j wait t session peer k))
  linked-Sound t session peer k =
      Keeps-modify IsLinked (linked S c j wait t session peer k)
        (λ s n. tied k session t.src_node_id)

  take_answer-Sound :
      (t : RelayTicket) (k : S.Udp) (r : RelayDaemonResponse) → Sound (take_answer S c j wait t k r)
  take_answer-Sound t k (attached session peer) = search (steps, linked-Sound) depth 14
  take_answer-Sound t k (refused code message) = search steps
  take_answer-Sound t k r = search steps

  connect_udp-Sound : (t : RelayTicket) (a : String) → Sound (connect_udp S c j wait t a)
  unfolding connect_udp
  connect_udp-Sound t a = search (steps, request-Sound, read-Sound, take_answer-Sound) depth 14

  if-Sound :
      {A : Type 0} (b : Bool) (m n : Method S c j wait A)
      → Sound m
      → Sound n
      → Sound (if b then m else n)
  if-Sound true m n h k = h
  if-Sound false m n h k = k

  connect-Sound : (t : RelayTicket) → Sound (connect S c j wait t)
  unfolding connect
  connect-Sound t = search (steps, if-Sound, connect_udp-Sound) depth 14

  send_to-Sound :
      (b : List ℕ) (session local : Option String) (k : ActiveSocket S.Tcp S.Udp)
      → Sound (send_to S c j wait b session local k)
  send_to-Sound b session local (tcp k) = search steps depth 14
  send_to-Sound b session local (udp k) = search (steps, request-Sound, read-Sound) depth 14

  send-Sound : (b : List ℕ) → Sound (send_transport_packet S c j wait b)
  unfolding send_transport_packet
  send-Sound b = search (steps, send_to-Sound) depth 14

  poll_from-Sound : (k : ActiveSocket S.Tcp S.Udp) → Sound (poll_from S c j wait k)
  poll_from-Sound (tcp k) = search steps depth 14
  poll_from-Sound (udp k) = search (steps, read-Sound) depth 14

  poll-Sound : Sound (poll_transport_packet S c j wait)
  unfolding poll_transport_packet
  poll-Sound = search (steps, poll_from-Sound) depth 14

  -- what a call leaves
  unfoldable pub after : Relay S c j wait → RelayCall → Relay S c j wait
  after s (connecting t) = (connect S c j wait t s).1
  after s (sending b) = (send_transport_packet S c j wait b s).1
  after s polling = (poll_transport_packet S c j wait s).1

  pub data ReachableRelay : Relay S c j wait → Type 0 where
    made : ReachableRelay (new_relay S c j wait)
    called : {s : Relay S c j wait} (q : RelayCall) → ReachableRelay s → ReachableRelay (after s q)

  after-IsLinked : (s : Relay S c j wait) (q : RelayCall) → IsLinked s → IsLinked (after s q)
  unfolding after
  after-IsLinked s (connecting t) n = (connect-Sound t).holds s n
  after-IsLinked s (sending b) n = (send-Sound b).holds s n
  after-IsLinked s polling n = poll-Sound.holds s n

  -- After any calls and whatever the daemon answers, a relay client has either no connection, session
  -- and participant, or a UDP socket with both: it is never connected without a session, nor over TCP.
  pub ReachableRelay-IsLinked : {s : Relay S c j wait} → ReachableRelay s → IsLinked s
  unfolding new_relay
  ReachableRelay-IsLinked made = idle
  ReachableRelay-IsLinked (called {s} q r) = after-IsLinked s q (ReachableRelay-IsLinked r)
