-- ===== src/UdpRelay.antt =====
-- server/server-relay/crates/udp-relay: sessions behind a ticket validator, and the forwarding of a
-- packet to the other end of its session.
use slan.Prelude.{ℕ, String, List, Option, Result, ok, err, ◌>>=◌, ok_or, null, if◌then◌else◌}
use slan.RelayCore.Error.{RelayError, session_not_found, empty_payload}
use slan.RelayCore.Session.{RelaySession, peer_of}
use slan.RelayCore.Ticket.{RelayTicket}
use slan.Auth.{Crypto, StaticTicketValidator, validate}
use slan.SessionStore
use slan.SessionStore.{InMemorySessionStore}

pub record RelayPacket : Type 0 where
  pub session_id : String
  pub from_device_id : String
  pub payload : List ℕ

pub record ForwardedPacket : Type 0 where
  pub session_id : String
  pub to_device_id : String
  pub payload : List ℕ

pub record UdpRelay : Type 0 where
  pub store : InMemorySessionStore
  pub validator : StaticTicketValidator

unfoldable pub attach : UdpRelay → RelaySession → Result RelayError (Unit {0}) × UdpRelay
attach r session =
    let (result, store') = SessionStore.create r.store session in
    (result, record r { store = store' })

abbrev attach_validated :
    UdpRelay → RelaySession → Result RelayError (Unit {0}) → Result RelayError (Unit {0}) × UdpRelay
attach_validated r session (err e) = (err e, r)
attach_validated r session (ok _) = attach r session

unfoldable pub attach_with_ticket :
    Crypto
    → Option ℕ
    → UdpRelay
    → RelayTicket
    → RelaySession
    → Result RelayError (Unit {0}) × UdpRelay
attach_with_ticket c clock r ticket session =
    attach_validated r session (validate c r.validator clock ticket)

-- `UdpRelay::session`
unfoldable pub find_session : UdpRelay → String → Result RelayError RelaySession
find_session r session_id = ok_or (SessionStore.get r.store session_id) session_not_found

unfoldable pub detach : UdpRelay → String → Result RelayError (Unit {0}) × UdpRelay
detach r session_id =
    let (result, store') = SessionStore.remove r.store session_id in
    (result, record r { store = store' })

unfoldable pub forward : UdpRelay → RelayPacket → Result RelayError ForwardedPacket
forward r p = if null p.payload then err empty_payload else (do
  session ← find_session r p.session_id
  peer ← peer_of session p.from_device_id
  ok (record { session_id = p.session_id; to_device_id = peer; payload = p.payload }))
