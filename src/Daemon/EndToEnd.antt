-- ===== src/Daemon/EndToEnd.antt =====
-- Two devices meet: attach, attach, forward on the relay daemon
-- (server/server-relay/crates/relay-daemon/src/runtime).
use slan.Prelude.{
  String, false, ◌≡◌, ◌≢◌, refl, sym, ap, ◌∙◌, Option, some, ok, arith, ◌&&◌, null, List, ◌==◌,
  eq_iff, eq_refl, ℕ, ◌⊎◌, inl, inr, if◌then◌else◌,
}
use slan.Prelude.Table
use slan.RelayCore.Session.{peer_of}
use slan.Auth.{Crypto}
use slan.Daemon.Protocol.{SocketAddr, RelayTicketWire, attach, forward, to_relay_ticket}
use slan.Daemon.Runtime.{RelayRuntime, Reply, session_of, handle_request, handle_attach}
use slan.Daemon.Invariant.{IsConsistent, handle_request-IsConsistent, Slot-session}
use slan.Daemon.Delivery.{delivery_reply, forward_iff}
use slan.Daemon.Bindings.{entry, bound, applied, handle_request-refines}
use slan.Daemon.Requests.{attach-stored}

module _ (c : Crypto) (clock : Option ℕ) (r : RelayRuntime) (source : SocketAddr) (p : String)
    (wire : RelayTicketWire) (reply : Reply) (v : IsConsistent r)
    (accepted : (handle_request c clock r source (attach p wire)).0 ≡ ok reply) where
  -- what an accepted attachment does to the addresses
  attached-bound :
      (j q : String)
      → bound (handle_request c clock r source (attach p wire)).1.endpoints j q
        ≡ (if wire.session_id == j && p == q then some source else bound r.endpoints j q)
  attached-bound j q =
      handle_request-refines c clock r source (attach p wire) j q v
      ∙ ap (λ o. applied source (attach p wire) o (bound r.endpoints) j q) accepted

-- the two ends of a ticket, in either order
abbrev pub Ends : RelayTicketWire → String → String → Type 0
Ends wire p q =
    ((p ≡ wire.src_node_id) × (q ≡ wire.dst_node_id))
    ⊎ ((p ≡ wire.dst_node_id) × (q ≡ wire.src_node_id))

Ends-swapped : (wire : RelayTicketWire) (p q : String) → Ends wire p q → Ends wire q p
Ends-swapped wire p q (inl (e, f)) = inr (f, e)
Ends-swapped wire p q (inr (e, f)) = inl (f, e)

eq_differs : (x y : String) → x ≢ y → (x == y) ≡ false
eq_differs x y h = ground (arith, eq_iff x y)

Ends-distinct :
    (wire : RelayTicketWire) (p q : String)
    → wire.src_node_id ≢ wire.dst_node_id
    → Ends wire p q
    → p ≢ q
Ends-distinct wire p q h (inl (e, f)) g = h (sym e ∙ g ∙ f)
Ends-distinct wire p q h (inr (e, f)) g = h (sym f ∙ sym g ∙ e)

peer_of-Ends :
    (wire : RelayTicketWire) (p q : String)
    → wire.src_node_id ≢ wire.dst_node_id
    → Ends wire p q
    → peer_of (session_of (to_relay_ticket wire)) p ≡ ok q
unfolding peer_of to_relay_ticket
peer_of-Ends wire p q h (inl (e, f)) = rw (e, f) (simp eq_refl)
peer_of-Ends wire p q h (inr (e, f)) =
    rw (e, f, eq_differs wire.src_node_id wire.dst_node_id h) (simp eq_refl)

-- what one end sends is delivered, where both are bound
forward-delivered :
    (c : Crypto) (clock : Option ℕ) (r : RelayRuntime) (v : IsConsistent r) (wire : RelayTicketWire)
    (p q : String) (a b : SocketAddr) (payload : List ℕ)
    → null payload ≡ false
    → Table.get wire.session_id r.relay.store.sessions ≡ some (session_of (to_relay_ticket wire))
    → peer_of (session_of (to_relay_ticket wire)) p ≡ ok q
    → bound r.endpoints wire.session_id p ≡ some a
    → bound r.endpoints wire.session_id q ≡ some b
    → (handle_request c clock r a (forward wire.session_id p (c.encode_standard payload))).0
      ≡ ok (delivery_reply c wire.session_id p q b payload)
unfolding handle_request
forward-delivered c clock r v wire p q a b payload some_bytes stored peer sender target =
    let t = to_relay_ticket wire in
    let (ps, at, id, m) = Slot-session (session_of t) (v.slots wire.session_id) stored in
    (forward_iff c r v a wire.session_id p (c.encode_standard payload)
        (delivery_reply c wire.session_id p q b payload)).1
      (record {
        session = session_of t;
        participants = ps;
        to = q;
        addr = b;
        payload = payload;
        stored = stored;
        attached_at = at;
        sender = sym (ap (λ o. entry o p) at) ∙ sender;
        decoded = c.decode-encode payload;
        nonempty = some_bytes;
        peer = peer;
        bound = sym (ap (λ o. entry o q) at) ∙ target;
        answer = refl;
      })

module _ (c : Crypto) (clock clock' clock'' : Option ℕ) (r : RelayRuntime) (v : IsConsistent r)
    (a b : SocketAddr) (wire : RelayTicketWire) (p q : String) (ends : Ends wire p q)
    (distinct : wire.src_node_id ≢ wire.dst_node_id) where
  abbrev pub first_attached : RelayRuntime
  first_attached = (handle_request c clock r a (attach p wire)).1

  abbrev pub both_attached : RelayRuntime
  both_attached = (handle_request c clock' first_attached b (attach q wire)).1

  module _ (first second : Reply)
      (first_ok : (handle_request c clock r a (attach p wire)).0 ≡ ok first)
      (second_ok : (handle_request c clock' first_attached b (attach q wire)).0 ≡ ok second) where
    first-IsConsistent : IsConsistent first_attached
    first-IsConsistent = handle_request-IsConsistent c clock r a (attach p wire) v

    both-IsConsistent : IsConsistent both_attached
    both-IsConsistent =
        handle_request-IsConsistent c clock' first_attached b (attach q wire) first-IsConsistent

    second-bound : bound both_attached.endpoints wire.session_id q ≡ some b
    second-bound =
        attached-bound c clock' first_attached b q wire second first-IsConsistent second_ok
          wire.session_id q
        ∙ simp eq_refl

    first-bound : bound both_attached.endpoints wire.session_id p ≡ some a
    first-bound =
        attached-bound c clock' first_attached b q wire second first-IsConsistent second_ok
          wire.session_id p
        ∙ simp eq_refl (
            rw (eq_differs q p (λ e. Ends-distinct wire p q distinct ends (sym e)))
              (attached-bound c clock r a p wire first v first_ok wire.session_id p ∙ simp eq_refl))

    both-stored :
        Table.get wire.session_id both_attached.relay.store.sessions
        ≡ some (session_of (to_relay_ticket wire))
    unfolding handle_request handle_attach to_relay_ticket
    both-stored = attach-stored c clock' first_attached b q (to_relay_ticket wire) second second_ok

    -- When the two distinct ends of a ticket have attached, in whichever order, what either sends next, if
    -- it is not empty, reaches the other at the address that it attached from.
    pub attach-attach-forward :
        (payload : List ℕ)
        → null payload ≡ false
        → ((handle_request c clock'' both_attached a
              (forward wire.session_id p (c.encode_standard payload))).0
            ≡ ok (delivery_reply c wire.session_id p q b payload))
          × ((handle_request c clock'' both_attached b
                (forward wire.session_id q (c.encode_standard payload))).0
              ≡ ok (delivery_reply c wire.session_id q p a payload))
    attach-attach-forward payload some_bytes = (
      forward-delivered c clock'' both_attached both-IsConsistent wire p q a b payload some_bytes
          both-stored (peer_of-Ends wire p q distinct ends) first-bound second-bound,
      forward-delivered c clock'' both_attached both-IsConsistent wire q p b a payload some_bytes
          both-stored (peer_of-Ends wire q p distinct (Ends-swapped wire p q ends)) second-bound
          first-bound,
    )
