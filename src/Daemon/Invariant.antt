-- ===== src/Daemon/Invariant.antt =====
-- The two tables of the relay daemon and the invariant of `RelayRuntime`
-- (server/server-relay/crates/relay-daemon/src/runtime).
use mathlib.Core.Option.{some-injective}
use slan.Prelude.{
  String, true, false, ◌≡◌, refl, subst, inl, inr, Option, none, some, ok, arith, null, ◌==◌,
  eq_iff, Bool-cases, if_cases, ℕ,
}
use slan.Prelude.Table
use slan.Prelude.Table.{Table}
use slan.RelayCore.Session.{RelaySession, involves, same_session, same_session→eq}
use slan.RelayCore.Ticket.{RelayTicket}
use slan.Auth.{Crypto, validate}
use slan.SessionStore
use slan.UdpRelay
use slan.Daemon.Protocol.{SocketAddr, ClientRequest, ping, attach, forward, detach, to_relay_ticket}
use slan.Daemon.Runtime.{
  RelayRuntime, Outcome, init, session_of, attach_ticket, handle_attach, handle_forward,
  handle_request, bind_endpoint, remove_participant,
}
use slan.Daemon.Cases.{is_party, with_session, attach_cases, detach_cases}

-- Everybody who is attached to a session is one of its two ends.
pub record Members (s : RelaySession) (ps : Table SocketAddr) : Type 0 where
  pub member : (p : String) (a : SocketAddr) → Table.get p ps ≡ some a → involves s p ≡ true

-- What the two tables hold under one session id: nothing in both, or a session of that id with at
-- least one participant, all of them its ends.
pub data Slot (k : String) : Option RelaySession → Option (Table SocketAddr) → Type 0 where
  vacant : Slot k none none
  held :
      (s : RelaySession) (ps : Table SocketAddr)
      → s.session_id ≡ k
      → null ps ≡ false
      → Members s ps
      → Slot k (some s) (some ps)

pub record IsConsistent (r : RelayRuntime) : Type 0 where
  pub unpoisoned : r.relay.store.poisoned ≡ false
  pub slots : (k : String) → Slot k (Table.get k r.relay.store.sessions) (Table.get k r.endpoints)

pub init-IsConsistent : (prefix secret : Option String) → IsConsistent (init prefix secret)
unfolding init SessionStore.new Table.get
init-IsConsistent prefix secret = record { unpoisoned = refl; slots = λ k. vacant }

Members-insert :
    (s : RelaySession) (p : String) (a : SocketAddr) (ps : Table SocketAddr)
    → involves s p ≡ true
    → Members s ps
    → Members s (Table.insert p a ps)
Members-insert s p a ps h m = record {
  member = λ q b e. elim (Bool-cases (p == q)) [
    | inl same ↦ rw (← (eq_iff p q).0 same) h
    | inr other ↦ m.member q b (rw (Table.get-insert p q a ps, other) at e)
  ];
}

Members-remove :
    (s : RelaySession) (p : String) (ps : Table SocketAddr)
    → Members s ps
    → Members s (Table.remove p ps)
Members-remove s p ps m = record {
  member = λ q b e. ground (arith, Table.get-remove p q ps, m.member q b);
}

Members-empty : (s : RelaySession) → Members s Table.empty
unfolding Table.get
Members-empty s = record { member = λ p a e. ground arith }

party-involves :
    (t : RelayTicket) (p : String) → is_party t p ≡ true → involves (session_of t) p ≡ true
unfolding involves
party-involves t p h = ground (
  arith,
  eq_iff p t.src_node_id,
  eq_iff p t.dst_node_id,
  eq_iff t.src_node_id p,
  eq_iff t.dst_node_id p,
)

module _ (sessions : Table RelaySession) (e : Table (Table SocketAddr)) (k sid : String) where
  Slot-insert_both :
      (s : RelaySession) (ps : Table SocketAddr)
      → Slot sid (some s) (some ps)
      → Slot k (Table.get k sessions) (Table.get k e)
      → Slot k (Table.get k (Table.insert sid s sessions)) (Table.get k (Table.insert sid ps e))
  Slot-insert_both s ps new old =
      rw (Table.get-insert sid k s sessions, Table.get-insert sid k ps e)
        (elim (Bool-cases (sid == k)) [
          | inl same ↦ rw same (subst (λ j. Slot j (some s) (some ps)) ((eq_iff sid k).0 same) new)
          | inr other ↦ rw other old
        ])

  Slot-insert_endpoint :
      (s : RelaySession) (ps : Table SocketAddr)
      → Table.get sid sessions ≡ some s
      → Slot sid (some s) (some ps)
      → Slot k (Table.get k sessions) (Table.get k e)
      → Slot k (Table.get k sessions) (Table.get k (Table.insert sid ps e))
  Slot-insert_endpoint s ps there new old =
      rw (Table.get-insert sid k ps e) (elim (Bool-cases (sid == k)) [
        | inl same ↦ rw same (
            subst (λ j. Slot j (Table.get j sessions) (some ps)) ((eq_iff sid k).0 same)
              (rw there new))
        | inr other ↦ rw other old
      ])

  Slot-remove_both :
      Slot k (Table.get k sessions) (Table.get k e)
      → Slot k (Table.get k (Table.remove sid sessions)) (Table.get k (Table.remove sid e))
  Slot-remove_both old =
      rw (Table.get-remove sid k sessions, Table.get-remove sid k e)
        (elim (Bool-cases (sid == k)) [ inl same ↦ rw same vacant | inr other ↦ rw other old ])

-- What a slot tells of the table that is read first.
pub Slot-vacant :
    {k : String} {o : Option RelaySession} {q : Option (Table SocketAddr)}
    → Slot k o q
    → o ≡ none
    → q ≡ none
Slot-vacant vacant h = refl
Slot-vacant (held s ps a b m) h = cc

pub Slot-session :
    {k : String} {o : Option RelaySession} {q : Option (Table SocketAddr)} (s : RelaySession)
    → Slot k o q
    → o ≡ some s
    → (ps : Table SocketAddr) × (q ≡ some ps) × (s.session_id ≡ k) × Members s ps
Slot-session s vacant h = cc
Slot-session {k} s (held s' ps a b m) h =
    let e = some-injective s' s h in
    (ps, refl, subst (λ x. x.session_id ≡ k) e a, subst (λ x. Members x ps) e m)

pub Slot-endpoints :
    {k : String} {o : Option RelaySession} {q : Option (Table SocketAddr)} (ps : Table SocketAddr)
    → Slot k o q
    → q ≡ some ps
    → (s : RelaySession) × (o ≡ some s) × (s.session_id ≡ k) × Members s ps
Slot-endpoints ps vacant h = cc
Slot-endpoints ps (held s ps' a b m) h = (s, refl, a, subst (Members s) (some-injective ps' ps h) m)

module _ (r : RelayRuntime) (v : IsConsistent r) where
  attach_ticket-IsConsistent :
      (c : Crypto) (clock : Option ℕ) (source : SocketAddr) (p : String) (t : RelayTicket)
      → IsConsistent (attach_ticket c clock r source p t).1
  unfolding bind_endpoint
  attach_ticket-IsConsistent c clock source p t =
      attach_cases c clock r source p t (λ o. IsConsistent o.1) (λ e. v) fresh again
    where
      fresh :
          is_party t p ≡ true
          → validate c r.relay.validator clock t ≡ ok tt
          → r.relay.store.poisoned ≡ false
          → Table.get t.session_id r.relay.store.sessions ≡ none
          → IsConsistent (record {
            relay = with_session r.relay t;
            endpoints = bind_endpoint r.endpoints t.session_id p source;
          })
      fresh party good live absent = record {
        unpoisoned = live;
        slots = λ k.
            Slot-insert_both r.relay.store.sessions r.endpoints k t.session_id (session_of t) _
              (held (session_of t) _ refl (Table.null-insert p source _) (
                Members-insert (session_of t) p source _ (party-involves t p party)
                  (rw (Slot-vacant (v.slots t.session_id) absent) (Members-empty (session_of t)))))
              (v.slots k);
      }

      again :
          (s : RelaySession)
          → is_party t p ≡ true
          → validate c r.relay.validator clock t ≡ ok tt
          → r.relay.store.poisoned ≡ false
          → Table.get t.session_id r.relay.store.sessions ≡ some s
          → same_session s (session_of t) ≡ true
          → IsConsistent (record r { endpoints = bind_endpoint r.endpoints t.session_id p source })
      again s party good live there same = record {
        unpoisoned = live;
        slots = λ k.
            let (ps, at, id, m) = Slot-session s (v.slots t.session_id) there in
            Slot-insert_endpoint r.relay.store.sessions r.endpoints k t.session_id s _ there
              (held s _ id (Table.null-insert p source _) (
                Members-insert s p source _
                  (rw (same_session→eq s (session_of t) same) (party-involves t p party))
                  (rw at m)))
              (v.slots k);
      }

  remove_participant-IsConsistent :
      (k p : String) (ps : Table SocketAddr)
      → Table.get k r.endpoints ≡ some ps
      → IsConsistent (remove_participant r k p (Table.remove p ps)).1
  unfolding remove_participant UdpRelay.detach
  remove_participant-IsConsistent k p ps at =
      if_cases {A = Outcome} (λ o. IsConsistent o.1) (null (Table.remove p ps)) _ _
        (λ gone.
          SessionStore.remove_cases r.relay.store
            (λ q. IsConsistent (record {
              relay = record r.relay { store = q.1 };
              endpoints = Table.remove k r.endpoints;
            }))
            k (λ dead. cc (v.unpoisoned, dead))
            (λ live missing. cc (Slot-vacant (v.slots k) missing, at))
            (λ s live there. record {
              unpoisoned = live;
              slots = λ j. Slot-remove_both r.relay.store.sessions r.endpoints j k (v.slots j);
            }))
        (λ left.
          let (s, there, id, m) = Slot-endpoints ps (v.slots k) at in
          record {
            unpoisoned = v.unpoisoned;
            slots = λ j.
                Slot-insert_endpoint r.relay.store.sessions r.endpoints j k s _ there
                  (held s _ id left (Members-remove s p ps m)) (v.slots j);
          })

-- Whatever is asked, the two tables go on agreeing.
pub handle_request-IsConsistent :
    (c : Crypto) (clock : Option ℕ) (r : RelayRuntime) (source : SocketAddr)
    (request : ClientRequest)
    → IsConsistent r
    → IsConsistent (handle_request c clock r source request).1
unfolding handle_request handle_attach handle_forward
handle_request-IsConsistent c clock r source ping v = v
handle_request-IsConsistent c clock r source (attach p wire) v =
    attach_ticket-IsConsistent r v c clock source p (to_relay_ticket wire)
handle_request-IsConsistent c clock r source (forward k p payload) v = v
handle_request-IsConsistent c clock r source (detach k p) v =
    detach_cases r source k p (λ o. IsConsistent o.1) (λ e h. v)
      (λ ps at bound. remove_participant-IsConsistent r v k p ps at)
