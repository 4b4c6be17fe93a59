-- ===== src/Daemon/Requests.antt =====
-- When the requests of server/server-relay/crates/relay-daemon/src/runtime succeed, and what they
-- leave alone.
use slan.Prelude.{
  String, true, false, ◌≡◌, refl, sym, ap, ◌∙◌, ◌↔◌, ◌⊎◌, inl, inr, ◌&&◌, not, Option, none, some,
  ok, err, arith, null, ◌==◌, eq_iff, if_cases, ok-injective, ℕ,
}
use slan.Prelude.Table
use slan.Prelude.Table.{Table}
use slan.RelayCore.Session.{RelaySession, same_session→eq, same_session_refl}
use slan.RelayCore.Ticket.{RelayTicket}
use slan.Auth.{Crypto, validate}
use slan.SessionStore
use slan.UdpRelay
use slan.Daemon.Errors.{RelayRuntimeError}
use slan.Daemon.Protocol.{
  SocketAddr, RelayTicketWire, ClientRequest, ping, attach, forward, detach, to_relay_ticket,
}
use slan.Daemon.Runtime.{
  RelayRuntime, Reply, Outcome, init, session_of, attach_ticket, handle_attach, handle_forward,
  handle_detach, handle_request, accept_session, remove_participant, detach_reply,
}
use slan.Daemon.Cases.{is_party, attach_reply, attach_cases, detach_cases}
use slan.Daemon.Invariant.{
  IsConsistent, init-IsConsistent, handle_request-IsConsistent, Slot-vacant,
}

-- A runtime that some requests have led to, from any peers and at any times.
pub data Reachable (c : Crypto) : RelayRuntime → Type 0 where
  start : (prefix secret : Option String) → Reachable c (init prefix secret)
  request :
      {r : RelayRuntime} (clock : Option ℕ) (source : SocketAddr) (q : ClientRequest)
      → Reachable c r
      → Reachable c (handle_request c clock r source q).1

-- Whatever peers ask and in whatever order, the two tables agree.
pub Reachable-IsConsistent : (c : Crypto) {r : RelayRuntime} → Reachable c r → IsConsistent r
Reachable-IsConsistent c (start prefix secret) = init-IsConsistent prefix secret
Reachable-IsConsistent c (request {r} clock source q h) =
    handle_request-IsConsistent c clock r source q (Reachable-IsConsistent c h)

abbrev pub Fails : Outcome → RelayRuntime → Type 0
Fails o r = (e : RelayRuntimeError) → o.0 ≡ err e → o.1 ≡ r

detach-Fails :
    (r : RelayRuntime) (source : SocketAddr) (k p : String)
    → IsConsistent r
    → Fails (handle_detach r source k p) r
unfolding remove_participant UdpRelay.detach
detach-Fails r source k p v =
    detach_cases r source k p (λ o. Fails o r) (λ e h f g. refl)
      λ ps at sender.
        if_cases {A = Outcome} (λ o. Fails o r) (null (Table.remove p ps)) _ _
          (λ gone.
            SessionStore.remove_cases r.relay.store
              (λ s.
                Fails
                  (
                    detach_reply k p s.0,
                    record {
                      relay = record r.relay { store = s.1 };
                      endpoints = Table.remove k r.endpoints;
                    },
                  )
                  r)
              k (λ dead. cc (v.unpoisoned, dead))
              (λ live missing. cc (Slot-vacant (v.slots k) missing, at)) (λ s live there e h. cc))
          (λ left e h. cc)

-- A request that is refused changes nothing.
pub handle_request-err :
    (c : Crypto) (clock : Option ℕ) (r : RelayRuntime) (source : SocketAddr) (q : ClientRequest)
    (e : RelayRuntimeError)
    → IsConsistent r
    → (handle_request c clock r source q).0 ≡ err e
    → (handle_request c clock r source q).1 ≡ r
unfolding handle_request handle_attach handle_forward
handle_request-err c clock r source ping e v h = refl
handle_request-err c clock r source (attach p wire) e v h =
    attach_cases c clock r source p (to_relay_ticket wire) (λ o. Fails o r) (λ f g h. refl)
      (λ party good live absent f g. cc) (λ s party good live there same f g. cc) e h
handle_request-err c clock r source (forward k p payload) e v h = refl
handle_request-err c clock r source (detach k p) e v h = detach-Fails r source k p v e h

-- no session of the ticket's id, or the ticket's own
abbrev pub Compatible : RelayRuntime → RelayTicket → Type 0
Compatible r t =
    (Table.get t.session_id r.relay.store.sessions ≡ none)
    ⊎ (Table.get t.session_id r.relay.store.sessions ≡ some (session_of t))

module _ (c : Crypto) (clock : Option ℕ) (r : RelayRuntime) (source : SocketAddr) (p : String)
    (t : RelayTicket) where
  abbrev pub Admissible : Type 0
  Admissible =
      (is_party t p ≡ true) × (validate c r.relay.validator clock t ≡ ok tt) × Compatible r t

  attach_sound :
      (reply : Reply)
      → (attach_ticket c clock r source p t).0 ≡ ok reply
      → Admissible × (reply ≡ attach_reply t p)
  attach_sound reply =
      attach_cases c clock r source p t
        (λ o. o.0 ≡ ok reply → Admissible × (reply ≡ attach_reply t p)) (λ e h. cc)
        (λ party good live absent h. ((party, good, inl absent), sym (ok-injective h)))
        λ s party good live there same h. (
          (party, good, inr (there ∙ ap some (same_session→eq s (session_of t) same))),
          sym (ok-injective h),
        )

  not_outsider :
      is_party t p ≡ true → (not (p == t.src_node_id) && not (p == t.dst_node_id)) ≡ false
  not_outsider h = ground arith

  attach_complete :
      r.relay.store.poisoned ≡ false
      → Admissible
      → (attach_ticket c clock r source p t).0 ≡ ok (attach_reply t p)
  unfolding attach_ticket accept_session UdpRelay.attach_with_ticket UdpRelay.attach
      SessionStore.create UdpRelay.find_session SessionStore.get
  attach_complete live (party, good, inl absent) = rw (not_outsider party, good, live, absent) refl
  attach_complete live (party, good, inr there) =
      rw (not_outsider party, good, live, there, there, same_session_refl (session_of t)) refl

  pub attach-stored :
      (reply : Reply)
      → (attach_ticket c clock r source p t).0 ≡ ok reply
      → Table.get t.session_id (attach_ticket c clock r source p t).1.relay.store.sessions
        ≡ some (session_of t)
  attach-stored reply =
      attach_cases c clock r source p t
        (λ o.
          o.0 ≡ ok reply → Table.get t.session_id o.1.relay.store.sessions ≡ some (session_of t))
        (λ e h. cc)
        (λ party good live absent h.
          Table.get-insert_self t.session_id (session_of t) r.relay.store.sessions)
        λ s party good live there same h. there ∙ ap some (same_session→eq s (session_of t) same)

-- An attachment succeeds exactly for an end of a valid ticket whose session is new or its own.
pub handle_attach_iff :
    (c : Crypto) (clock : Option ℕ) (r : RelayRuntime) (source : SocketAddr) (p : String)
    (wire : RelayTicketWire) (reply : Reply)
    → IsConsistent r
    → ((handle_attach c clock r source p wire).0 ≡ ok reply) ↔ (
        Admissible c clock r source p (to_relay_ticket wire)
        × (reply ≡ attach_reply (to_relay_ticket wire) p))
unfolding handle_attach
handle_attach_iff c clock r source p wire reply v = (
  attach_sound c clock r source p (to_relay_ticket wire) reply,
  λ h. attach_complete c clock r source p (to_relay_ticket wire) v.unpoisoned h.0 ∙ ap ok (sym h.1),
)

abbrev pub Stays : String → RelaySession → RelayRuntime → Type 0
Stays k s r =
    (Table.get k r.relay.store.sessions ≡ some s) ⊎ (Table.get k r.relay.store.sessions ≡ none)

module _ (r : RelayRuntime) (k : String) (s : RelaySession) (j : String) where
  open r.relay.store use {sessions}

  stays-insert :
      (new_session : RelaySession)
      → Table.get k sessions ≡ some s
      → Table.get j sessions ≡ none
      → (Table.get k (Table.insert j new_session sessions) ≡ some s)
        ⊎ (Table.get k (Table.insert j new_session sessions) ≡ none)
  stays-insert new_session h absent =
      ground (arith, Table.get-insert j k new_session sessions, eq_iff j k)

  stays-remove :
      Table.get k sessions ≡ some s
      → (Table.get k (Table.remove j sessions) ≡ some s)
        ⊎ (Table.get k (Table.remove j sessions) ≡ none)
  stays-remove h = ground (arith, Table.get-remove j k sessions)

-- A session that is stored is never replaced: it stays as it is, or goes.
pub session_stable :
    (c : Crypto) (clock : Option ℕ) (r : RelayRuntime) (source : SocketAddr) (q : ClientRequest)
    (k : String) (s : RelaySession)
    → IsConsistent r
    → Table.get k r.relay.store.sessions ≡ some s
    → Stays k s (handle_request c clock r source q).1
unfolding handle_request handle_attach handle_forward remove_participant UdpRelay.detach
session_stable c clock r source ping k s v h = inl h
session_stable c clock r source (attach p wire) k s v h =
    attach_cases c clock r source p (to_relay_ticket wire) (λ o. Stays k s o.1) (λ e. inl h)
      (λ party good live absent.
        stays-insert r k s (to_relay_ticket wire).session_id (session_of (to_relay_ticket wire)) h
          absent)
      (λ s' party good live there same. inl h)
session_stable c clock r source (forward j p payload) k s v h = inl h
session_stable c clock r source (detach j p) k s v h =
    detach_cases r source j p (λ o. Stays k s o.1) (λ e f. inl h)
      λ ps at sender.
        if_cases {A = Outcome} (λ o. Stays k s o.1) (null (Table.remove p ps)) _ _
          (λ gone.
            SessionStore.remove_cases r.relay.store
              (λ q. Stays k s (record {
                relay = record r.relay { store = q.1 };
                endpoints = Table.remove j r.endpoints;
              }))
              j (λ dead. inl h) (λ live missing. inl h) (λ s' live there. stays-remove r k s j h))
          (λ left. inl h)
