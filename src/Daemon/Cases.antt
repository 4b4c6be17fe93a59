-- ===== src/Daemon/Cases.antt =====
-- How a request of the relay daemon can end: case rules for the handlers of
-- server/server-relay/crates/relay-daemon/src/runtime, from which the proofs about it start.
use slan.Prelude.{
  String, Bool, true, false, ◌≡◌, refl, inl, inr, ◌&&◌, ◌||◌, not, Option, none, some, ok, err,
  arith, ◌==◌, Bool-cases, if_cases, Option-cases, Result-cases, ok-injective, ℕ, reject_if,
}
use slan.Prelude.Table
use slan.Prelude.Table.{Table}
use slan.RelayCore.Error.{RelayError, invalid_ticket, session_already_exists}
use slan.RelayCore.Session.{RelaySession, same_session}
use slan.RelayCore.Ticket.{RelayTicket}
use slan.Auth.{Crypto, validate}
use slan.Auth.Checks.{IsTicketError, refused, validate-Refuses}
use slan.SessionStore
use slan.UdpRelay
use slan.UdpRelay.{UdpRelay}
use slan.Daemon.Errors.{RelayRuntimeError, relay_runtime_error, new}
use slan.Daemon.Protocol.{SocketAddr, same_addr, same_addr_iff, attached}
use slan.Daemon.Runtime.{
  RelayRuntime, Reply, Outcome, session_of, peer_in, attach_ticket, handle_detach, bind_endpoint,
  accept_session, authorize, remove_participant, finish_attach,
}

-- the two ends of a ticket
abbrev pub is_party : RelayTicket → String → Bool
is_party t p = p == t.src_node_id || p == t.dst_node_id

abbrev pub attach_reply : RelayTicket → String → Reply
attach_reply t p =
    (attached (record { session_id = t.session_id; peer_participant_id = peer_in t p }), none)

-- the relay with one session more
abbrev pub with_session : UdpRelay → RelayTicket → UdpRelay
with_session u t = record u {
  store = record u.store { sessions = Table.insert t.session_id (session_of t) u.store.sessions };
}

abbrev pub conflict : RelayRuntimeError
conflict = new "session_conflict" "relay session already exists with different participants"

accept-refused :
    (u : UdpRelay) (t : RelayTicket) (e : RelayError)
    → IsTicketError e
    → accept_session u t (err e) ≡ err (relay_runtime_error e)
unfolding accept_session
accept-refused u t invalid_ticket h = refl
accept-refused u t session_already_exists h = elim h [ ]
accept-refused u t e h = refl

pub find_session-live :
    (u : UdpRelay) (k : String) (s : RelaySession)
    → u.store.poisoned ≡ false
    → Table.get k u.store.sessions ≡ some s
    → UdpRelay.find_session u k ≡ ok s
unfolding UdpRelay.find_session SessionStore.get
find_session-live u k s live present = rw (live, present)

accept-existing :
    (u : UdpRelay) (t : RelayTicket) (s : RelaySession)
    → u.store.poisoned ≡ false
    → Table.get t.session_id u.store.sessions ≡ some s
    → accept_session u t (err session_already_exists)
      ≡ reject_if (not (same_session s (session_of t))) conflict
unfolding accept_session
accept-existing u t s live present = rw (find_session-live u t.session_id s live present)

module _ (c : Crypto) (clock : Option ℕ) (r : RelayRuntime) (source : SocketAddr) (p : String)
    (t : RelayTicket) where
  pub attach_cases {ℓ} :
      (P : Outcome → Type ℓ)
      → ((e : RelayRuntimeError) → P (err e, r))
      → (is_party t p ≡ true
          → validate c r.relay.validator clock t ≡ ok tt
          → r.relay.store.poisoned ≡ false
          → Table.get t.session_id r.relay.store.sessions ≡ none
          → P (
            ok (attach_reply t p),
            record {
              relay = with_session r.relay t;
              endpoints = bind_endpoint r.endpoints t.session_id p source;
            },
          ))
      → ((s : RelaySession)
          → is_party t p ≡ true
          → validate c r.relay.validator clock t ≡ ok tt
          → r.relay.store.poisoned ≡ false
          → Table.get t.session_id r.relay.store.sessions ≡ some s
          → same_session s (session_of t) ≡ true
          → P (
            ok (attach_reply t p),
            record r { endpoints = bind_endpoint r.endpoints t.session_id p source },
          ))
      → P (attach_ticket c clock r source p t)
  unfolding attach_ticket UdpRelay.attach_with_ticket UdpRelay.attach accept_session
  attach_cases P refused_at fresh again =
      if_cases P (not (p == t.src_node_id) && not (p == t.dst_node_id)) _ _ (λ _. refused_at _)
        λ party. elim (Result-cases (validate c r.relay.validator clock t)) [
          | inr (e, bad) ↦
              rw
                (
                  bad,
                  accept-refused r.relay t e
                      (refused (rw bad at (validate-Refuses c r.relay.validator clock t))),
                )
                (refused_at _)
          | inl (_, good) ↦ rw good (
              SessionStore.create_cases r.relay.store
                (λ q. P (
                  finish_attach r source p t (record r.relay { store = q.1 })
                    (accept_session (record r.relay { store = q.1 }) t q.0)))
                (session_of t) (λ gone. refused_at _)
                (λ s live present.
                  rw (accept-existing r.relay t s live present)
                    (elim (Bool-cases (same_session s (session_of t))) [
                      | inl same ↦ rw same (again s (ground arith) good live present same)
                      | inr other ↦ rw other (refused_at _)
                    ]))
                (λ live absent. fresh (ground arith) good live absent))
        ]

-- What an authorised sender has: its session's participants, itself among them at its address.
pub authorize_sound :
    (e : Table (Table SocketAddr)) (source : SocketAddr) (k p : String) (ps : Table SocketAddr)
    → authorize e source k p ≡ ok ps
    → (Table.get k e ≡ some ps) × (Table.get p ps ≡ some source)
unfolding authorize
authorize_sound e source k p ps h = elim (Option-cases (Table.get k e)) [
  | inl missing ↦ let h₁ = rw missing at h in cc
  | inr (qs, there) ↦
      let h₁ = rw there at h in
      elim (Option-cases (Table.get p qs)) [
        | inl missing ↦ let h₂ = rw missing at h₁ in cc
        | inr (b, bound) ↦
            let h₂ = rw bound at h₁ in
            elim (Bool-cases (same_addr b source)) [
              | inl same ↦
                  let h₃ = rw same at h₂ in
                  let at = (same_addr_iff b source).0 same in
                  let eq = ok-injective h₃ in (rw (← eq) there, rw (← eq, ← at) bound)
              | inr other ↦ let h₃ = rw other at h₂ in cc
            ]
      ]
]

pub authorize_complete :
    (e : Table (Table SocketAddr)) (source : SocketAddr) (k p : String) (ps : Table SocketAddr)
    → Table.get k e ≡ some ps
    → Table.get p ps ≡ some source
    → authorize e source k p ≡ ok ps
unfolding authorize
authorize_complete e source k p ps attached_at bound =
    rw (attached_at, bound, (same_addr_iff source source).1 refl)

module _ (r : RelayRuntime) (source : SocketAddr) (k p : String) where
  pub detach_cases {ℓ} :
      (P : Outcome → Type ℓ)
      → ((e : RelayRuntimeError) → authorize r.endpoints source k p ≡ err e → P (err e, r))
      → ((ps : Table SocketAddr)
          → Table.get k r.endpoints ≡ some ps
          → Table.get p ps ≡ some source
          → P (remove_participant r k p (Table.remove p ps)))
      → P (handle_detach r source k p)
  unfolding handle_detach
  detach_cases P refused_at left = elim (Result-cases (authorize r.endpoints source k p)) [
    | inl (ps, e) ↦
        let (at, bound) = authorize_sound r.endpoints source k p ps e in rw e (left ps at bound)
    | inr (f, e) ↦ rw e (refused_at f e)
  ]
