-- ===== src/Daemon/Delivery.antt =====
-- What `handle_forward` (server/server-relay/crates/relay-daemon/src/runtime/forward.rs) delivers.
use slan.Prelude.{
  String, false, ◌≡◌, refl, sym, ap, ◌∙◌, subst, ◌↔◌, inl, inr, some, ok, null, Bool-cases,
  Option-cases, Result-cases, ok-injective, ℕ, List, length,
}
use slan.Prelude.Table
use slan.Prelude.Table.{Table}
use slan.RelayCore.Session.{RelaySession, peer_of}
use slan.Auth.{Crypto}
use slan.SessionStore
use slan.UdpRelay
use slan.UdpRelay.{UdpRelay, RelayPacket, ForwardedPacket}
use slan.Daemon.Protocol.{SocketAddr, forwarded, packet}
use slan.Daemon.Runtime.{RelayRuntime, Reply, handle_forward, authorize, deliver}
use slan.Daemon.Cases.{authorize_sound, authorize_complete, find_session-live}
use slan.Daemon.Invariant.{IsConsistent}

-- a packet that the relay core passes on
pub record Passes (u : UdpRelay) (p : RelayPacket) (f : ForwardedPacket) : Type 0 where
  pub session : RelaySession
  pub nonempty : null p.payload ≡ false
  pub found : UdpRelay.find_session u p.session_id ≡ ok session
  pub peer : peer_of session p.from_device_id ≡ ok f.to_device_id
  pub same_id : f.session_id ≡ p.session_id
  pub same_payload : f.payload ≡ p.payload

pub forward-Passes :
    (u : UdpRelay) (p : RelayPacket) (f : ForwardedPacket)
    → UdpRelay.forward u p ≡ ok f
    → Passes u p f
unfolding UdpRelay.forward
forward-Passes u p f h = elim (Bool-cases (null p.payload)) [
  | inl none_there ↦ let h₁ = rw none_there at h in cc
  | inr some_there ↦
      let h₁ = rw some_there at h in
      elim (Result-cases (UdpRelay.find_session u p.session_id)) [
        | inr (e, missing) ↦ let h₂ = rw missing at h₁ in cc
        | inl (s, there) ↦
            let h₂ = rw there at h₁ in
            elim (Result-cases (peer_of s p.from_device_id)) [
              | inr (e, stranger) ↦ let h₃ = rw stranger at h₂ in cc
              | inl (q, other) ↦
                  let e = ok-injective (rw other at h₂) in
                  record {
                    session = s;
                    nonempty = some_there;
                    found = there;
                    peer =
                        subst
                          (λ (x : ForwardedPacket). peer_of s p.from_device_id ≡ ok x.to_device_id)
                          e other;
                    same_id = subst (λ (x : ForwardedPacket). x.session_id ≡ p.session_id) e refl;
                    same_payload = subst (λ (x : ForwardedPacket). x.payload ≡ p.payload) e refl;
                  }
            ]
      ]
]

abbrev pub delivery_reply : Crypto → String → String → String → SocketAddr → List ℕ → Reply
delivery_reply c k p to addr payload = (
  forwarded (record { session_id = k; to_participant_id = to; bytes_forwarded = length payload }),
  some (
    addr,
    packet (record {
      session_id = k;
      from_participant_id = p;
      payload_b64 = c.encode_standard payload;
    }),
  ),
)

-- The sender is attached at its address, the payload decodes to some bytes, and the other end of
-- the stored session is attached: the packet goes to that end's address.
pub record Delivers (c : Crypto) (r : RelayRuntime) (source : SocketAddr) (k p b64 : String)
    (reply : Reply) : Type 0 where
  pub session : RelaySession
  pub participants : Table SocketAddr
  pub to : String
  pub addr : SocketAddr
  pub payload : List ℕ
  pub stored : Table.get k r.relay.store.sessions ≡ some session
  pub attached_at : Table.get k r.endpoints ≡ some participants
  pub sender : Table.get p participants ≡ some source
  pub decoded : c.decode_standard b64 ≡ ok payload
  pub nonempty : null payload ≡ false
  pub peer : peer_of session p ≡ ok to
  pub bound : Table.get to participants ≡ some addr
  pub answer : reply ≡ delivery_reply c k p to addr payload

deliver_sound :
    (c : Crypto) (ps : Table SocketAddr) (p : String) (f : ForwardedPacket) (reply : Reply)
    → deliver c ps p f ≡ ok reply
    → (addr : SocketAddr) × (Table.get f.to_device_id ps ≡ some addr)
      × (reply ≡ delivery_reply c f.session_id p f.to_device_id addr f.payload)
deliver_sound c ps p f reply h = elim (Option-cases (Table.get f.to_device_id ps)) [
  | inl missing ↦ let h₁ = rw missing at h in cc
  | inr (addr, bound) ↦ let h₁ = rw bound at h in (addr, bound, sym (ok-injective h₁))
]

module _ (c : Crypto) (r : RelayRuntime) (v : IsConsistent r) (source : SocketAddr)
    (k p b64 : String) (reply : Reply) where
  forward_complete :
      Delivers c r source k p b64 reply → (handle_forward c r source k p b64).0 ≡ ok reply
  unfolding handle_forward UdpRelay.forward
  forward_complete d = rw (
    authorize_complete r.endpoints source k p d.participants d.attached_at d.sender,
    d.decoded,
    d.nonempty,
    find_session-live r.relay k d.session v.unpoisoned d.stored,
    d.peer,
    d.bound,
    d.answer,
  )

  find_session-stored :
      (s : RelaySession)
      → UdpRelay.find_session r.relay k ≡ ok s
      → Table.get k r.relay.store.sessions ≡ some s
  unfolding UdpRelay.find_session SessionStore.get
  find_session-stored s h =
      let h₁ = rw v.unpoisoned at h in
      elim (Option-cases (Table.get k r.relay.store.sessions)) [
        | inl missing ↦ let h₂ = rw missing at h₁ in cc
        | inr (s', there) ↦ let h₂ = rw there at h₁ in there ∙ ap some (ok-injective h₂)
      ]

  forward_sound :
      (handle_forward c r source k p b64).0 ≡ ok reply → Delivers c r source k p b64 reply
  unfolding handle_forward
  forward_sound h = elim (Result-cases (authorize r.endpoints source k p)) [
    | inr (e, bad) ↦ let h₁ = rw bad at h in cc
    | inl (ps, good) ↦
        let h₁ = rw good at h in
        elim (Result-cases (c.decode_standard b64)) [
          | inr (e, bad) ↦ let h₂ = rw bad at h₁ in cc
          | inl (payload, decoded) ↦
              let h₂ = rw decoded at h₁ in
              elim (Result-cases (
                UdpRelay.forward r.relay
                  (record { session_id = k; from_device_id = p; payload = payload }))) [
                    | inr (e, bad) ↦ let h₃ = rw bad at h₂ in cc
                    | inl (f, passed) ↦
                        let h₃ = rw passed at h₂ in
                        let w = forward-Passes r.relay _ f passed in
                        let (addr, bound, e) = deliver_sound c ps p f reply h₃ in
                        let (there, sender) = authorize_sound r.endpoints source k p ps good in
                        record {
                          session = w.session;
                          participants = ps;
                          to = f.to_device_id;
                          addr = addr;
                          payload = payload;
                          stored = find_session-stored w.session w.found;
                          attached_at = there;
                          sender = sender;
                          decoded = decoded;
                          nonempty = w.nonempty;
                          peer = w.peer;
                          bound = bound;
                          answer = e ∙ λ i.
                              delivery_reply c (w.same_id i) p f.to_device_id addr
                                (w.same_payload i);
                        }
                  ]
        ]
  ]

  -- A forward succeeds exactly when it delivers, and its reply is the delivery's.
  pub forward_iff :
      ((handle_forward c r source k p b64).0 ≡ ok reply) ↔ Delivers c r source k p b64 reply
  forward_iff = (forward_sound, forward_complete)
