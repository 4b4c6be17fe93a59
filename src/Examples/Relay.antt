-- ===== src/Examples/Relay.antt =====
-- The theorems about the relay daemon, at a runtime that two devices attach to.
use slan.Prelude.{
  ℕ, ◌≡◌, ◌≢◌, ◌↔◌, refl, List, [], ◌∷◌, ◌++◌, none, some, Result, ok, err, arith, eq_iff, String,
  inl, map,
}
use slan.Prelude.Table
use slan.Daemon.Errors.{new}
use slan.Daemon.Protocol.{ClientRequest, ping, attach, forward, detach, attached, to_relay_ticket}
use slan.Daemon.Runtime.{
  RelayRuntime, Reply, handle_request, handle_attach, handle_forward, session_of,
}
use slan.Daemon.Cases.{attach_reply}
use slan.Daemon.Invariant.{IsConsistent, init-IsConsistent, handle_request-IsConsistent}
use slan.Daemon.Delivery.{delivery_reply, Delivers, forward_iff}
use slan.Daemon.Bindings.{bound, applied, handle_request-refines}
use slan.Daemon.Requests.{
  Reachable, start, request, Reachable-IsConsistent, handle_attach_iff, handle_request-err,
  Admissible, session_stable, Stays,
}
use slan.Daemon.EndToEnd.{attach-attach-forward}
use slan.Daemon.Serve.{Codec, Event, datagram, Daemon, serve, turn, answer, send_response}
use slan.Daemon.Loop.{
  Served, brings, done, more, serve-refines, serve-stops, final, transcript, on_wire,
}
use slan.Examples.Base.{crypto, addr_a, addr_b, wire, fresh, runs}

distinct : ◌≢◌ {A = String} "node-a" "node-b"
distinct = ground (arith, eq_iff "node-a" "node-b")

fresh-IsConsistent : IsConsistent fresh
fresh-IsConsistent = init-IsConsistent (some "udp://") none

abbrev reply_to : String → Reply
reply_to peer = (attached (record { session_id = "session-1"; peer_participant_id = peer }), none)

first_ok :
    (handle_request crypto (some 1000) fresh addr_a (attach "node-a" wire)).0
    ≡ ok (reply_to "node-b")
unfolding runs
first_ok = refl

abbrev one : RelayRuntime
one = (handle_request crypto (some 1000) fresh addr_a (attach "node-a" wire)).1

second_ok :
    (handle_request crypto (some 1000) one addr_b (attach "node-b" wire)).0 ≡ ok (reply_to "node-a")
unfolding runs
second_ok = refl

abbrev two : RelayRuntime
two = (handle_request crypto (some 1000) one addr_b (attach "node-b" wire)).1

two_reached : Reachable crypto two
two_reached =
    request (some 1000) addr_b (attach "node-b" wire)
      (request (some 1000) addr_a (attach "node-a" wire) (start (some "udp://") none))

two-IsConsistent : IsConsistent two
two-IsConsistent =
    handle_request-IsConsistent crypto (some 1000) one addr_b (attach "node-b" wire) (
      handle_request-IsConsistent crypto (some 1000) fresh addr_a (attach "node-a" wire)
        fresh-IsConsistent)

attach-attach-forward_example :
    ((handle_request crypto none two addr_a
        (forward "session-1" "node-a" (crypto.encode_standard (7 ∷ 8 ∷ [])))).0
      ≡ ok (delivery_reply crypto "session-1" "node-a" "node-b" addr_b (7 ∷ 8 ∷ [])))
    × ((handle_request crypto none two addr_b
          (forward "session-1" "node-b" (crypto.encode_standard (7 ∷ 8 ∷ [])))).0
        ≡ ok (delivery_reply crypto "session-1" "node-b" "node-a" addr_a (7 ∷ 8 ∷ [])))
attach-attach-forward_example =
    attach-attach-forward crypto (some 1000) (some 1000) none fresh fresh-IsConsistent addr_a addr_b
      wire "node-a" "node-b" (inl (refl, refl)) distinct (reply_to "node-b") (reply_to "node-a")
      first_ok second_ok (7 ∷ 8 ∷ []) refl

abbrev delivery : Reply
delivery = delivery_reply crypto "session-1" "node-a" "node-b" addr_b (7 ∷ [])

forward_iff_example :
    ((handle_forward crypto two addr_a "session-1" "node-a" "11111110").0 ≡ ok delivery)
    ↔ Delivers crypto two addr_a "session-1" "node-a" "11111110" delivery
forward_iff_example =
    forward_iff crypto two two-IsConsistent addr_a "session-1" "node-a" "11111110" delivery

handle_request-refines_example :
    let o = handle_request crypto none two addr_a (detach "session-1" "node-a") in
    bound o.1.endpoints "session-1" "node-b"
    ≡ applied addr_a (detach "session-1" "node-a") o.0 (bound two.endpoints) "session-1" "node-b"
handle_request-refines_example =
    handle_request-refines crypto none two addr_a (detach "session-1" "node-a") "session-1" "node-b"
      two-IsConsistent

Reachable-IsConsistent_example : IsConsistent two
Reachable-IsConsistent_example = Reachable-IsConsistent crypto two_reached

handle_attach_iff_example :
    ((handle_attach crypto (some 1000) one addr_b "node-b" wire).0 ≡ ok (reply_to "node-a")) ↔ (
      Admissible crypto (some 1000) one addr_b "node-b" (to_relay_ticket wire)
      × (reply_to "node-a" ≡ attach_reply (to_relay_ticket wire) "node-b"))
handle_attach_iff_example =
    handle_attach_iff crypto (some 1000) one addr_b "node-b" wire (reply_to "node-a") (
      handle_request-IsConsistent crypto (some 1000) fresh addr_a (attach "node-a" wire)
        fresh-IsConsistent)

rogue :
    (handle_request crypto none two addr_b (detach "session-1" "node-a")).0
    ≡ err (new "participant_address_mismatch" "participant is bound to a different udp address")
unfolding runs
rogue = refl

handle_request-err_example :
    (handle_request crypto none two addr_b (detach "session-1" "node-a")).1 ≡ two
handle_request-err_example =
    handle_request-err crypto none two addr_b (detach "session-1" "node-a") _ two-IsConsistent rogue

stored : Table.get "session-1" two.relay.store.sessions ≡ some (session_of (to_relay_ticket wire))
unfolding runs
stored = refl

session_stable_example :
    Stays "session-1"
      (session_of (to_relay_ticket wire))
      (handle_request crypto none two addr_a (detach "session-1" "node-a")).1
session_stable_example =
    session_stable crypto none two addr_a (detach "session-1" "node-a") "session-1" _
      two-IsConsistent stored

-- a codec that reads every datagram but the empty one as a ping
abbrev decode_ping : List ℕ → Result String ClientRequest
decode_ping [] = err "EOF while parsing a value at line 1 column 0"
decode_ping (b ∷ bs) = ok ping

abbrev codec : Codec
codec = record { decode_request = decode_ping; encode_response = λ m. ok (1 ∷ []) }

abbrev idle : Daemon
idle = record { runtime = fresh; sent = [] }

abbrev pings : List Event
pings = datagram addr_a (5 ∷ []) none (λ a. none) ∷ []

abbrev served : Served
served = record { source = addr_a; clock = none; request = ping }

serve-refines_example : serve codec crypto idle pings ≡ (
  ok tt,
  record {
    runtime = final crypto fresh (served ∷ []);
    sent = map (on_wire codec (λ m. 1 ∷ []) (λ m. refl)) (transcript crypto fresh (served ∷ []));
  },
)
serve-refines_example =
    serve-refines codec (λ m. 1 ∷ []) (λ m. refl) crypto idle
      (more (brings addr_a (5 ∷ []) none (λ a. none) ping refl (λ a. refl)) done)

pings_served : serve codec crypto idle pings ≡ (ok tt, (serve codec crypto idle pings).1)
unfolding serve turn answer send_response handle_request
pings_served = refl

serve-stops_example :
    serve codec crypto idle (pings ++ datagram addr_b [] none (λ a. none) ∷ pings) ≡ (
      err "decode relay request: EOF while parsing a value at line 1 column 0",
      (serve codec crypto idle pings).1,
    )
serve-stops_example =
    serve-stops codec crypto pings addr_b [] none (λ a. none)
      "EOF while parsing a value at line 1 column 0" refl idle _ pings pings_served
