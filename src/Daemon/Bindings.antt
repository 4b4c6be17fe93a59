-- ===== src/Daemon/Bindings.antt =====
-- Which address each participant of each session has: the effect of the requests of
-- server/server-relay/crates/relay-daemon/src/runtime on the endpoints, against a specification.
use slan.Prelude.{
  String, true, ◌≡◌, refl, sym, ap, ◌∙◌, inl, inr, ◌&&◌, Option, none, some, Result, ok, err, null,
  ◌==◌, eq_iff, Bool-cases, if_cases, ℕ, unwrap_or, if◌then◌else◌,
}
use slan.Prelude.Table
use slan.Prelude.Table.{Table}
use slan.Auth.{Crypto}
use slan.SessionStore
use slan.UdpRelay
use slan.Daemon.Errors.{RelayRuntimeError}
use slan.Daemon.Protocol.{SocketAddr, ClientRequest, ping, attach, forward, detach, to_relay_ticket}
use slan.Daemon.Runtime.{
  RelayRuntime, Reply, Outcome, SessionEndpoints, handle_attach, handle_forward, handle_detach,
  handle_request, bind_endpoint, remove_participant, detach_reply,
}
use slan.Daemon.Cases.{attach_cases, detach_cases}
use slan.Daemon.Invariant.{IsConsistent, Slot-vacant}

abbrev pub entry : Option (Table SocketAddr) → String → Option SocketAddr
entry none p = none
entry (some ps) p = Table.get p ps

-- the address of participant `p` in session `k`
abbrev pub bound : SessionEndpoints → String → String → Option SocketAddr
bound e k p = entry (Table.get k e) p

entry-unwrap_or :
    (o : Option (Table SocketAddr)) (p : String) → Table.get p (unwrap_or o Table.empty) ≡ entry o p
unfolding Table.get
entry-unwrap_or none p = refl
entry-unwrap_or (some ps) p = refl

-- What is written under `k` is read back at `k`, and elsewhere nothing changes.
bound_at :
    (e e' : SessionEndpoints) (k p : String) (new : Option (Table SocketAddr))
    (o : Option SocketAddr) (j q : String)
    → Table.get j e' ≡ (if k == j then new else Table.get j e)
    → entry new q ≡ (if p == q then o else bound e k q)
    → bound e' j q ≡ (if k == j && p == q then o else bound e j q)
bound_at e e' k p new o j q written inside = elim (Bool-cases (k == j)) [
  | inr other ↦ rw other (ap (λ x. entry x q) (written ∙ rw other refl))
  | inl same ↦
      let here = ap (λ x. entry x q) (written ∙ rw same refl) in
      let k≡j = (eq_iff k j).0 same in
      rw same (here ∙ inside ∙ ap (λ x. if p == q then o else bound e x q) k≡j)
]

pub bound-bind :
    (e : SessionEndpoints) (k p : String) (a : SocketAddr) (j q : String)
    → bound (bind_endpoint e k p a) j q ≡ (if k == j && p == q then some a else bound e j q)
unfolding bind_endpoint
bound-bind e k p a j q =
    bound_at e _ k p (some (Table.insert p a (unwrap_or (Table.get k e) Table.empty))) (some a) j q
      (Table.get-insert k j _ e)
      (Table.get-insert p q a _
        ∙ ap (λ x. if p == q then some a else x) (entry-unwrap_or (Table.get k e) q))

pub bound-insert :
    (e : SessionEndpoints) (k p : String) (ps : Table SocketAddr) (j q : String)
    → Table.get k e ≡ some ps
    → bound (Table.insert k (Table.remove p ps) e) j q
      ≡ (if k == j && p == q then none else bound e j q)
bound-insert e k p ps j q there =
    bound_at e _ k p (some (Table.remove p ps)) none j q (Table.get-insert k j _ e)
      (rw there (Table.get-remove p q ps))

pub bound-remove :
    (e : SessionEndpoints) (k p : String) (ps : Table SocketAddr) (j q : String)
    → Table.get k e ≡ some ps
    → null (Table.remove p ps) ≡ true
    → bound (Table.remove k e) j q ≡ (if k == j && p == q then none else bound e j q)
bound-remove e k p ps j q there gone =
    bound_at e _ k p none none j q (Table.get-remove k j e)
      (rw there (sym (Table.get-null q (Table.remove p ps) gone) ∙ Table.get-remove p q ps))

-- The specification: what a request that succeeded does to the addresses.
abbrev pub Addresses : Type 0
Addresses = String → String → Option SocketAddr

abbrev pub apply : SocketAddr → ClientRequest → Addresses → Addresses
apply source ping b j q = b j q
apply source (attach p wire) b j q = if wire.session_id == j && p == q then some source else b j q
apply source (forward k p payload) b j q = b j q
apply source (detach k p) b j q = if k == j && p == q then none else b j q

abbrev pub applied :
    SocketAddr → ClientRequest → Result RelayRuntimeError Reply → Addresses → Addresses
applied source request (ok _) b = apply source request b
applied source request (err _) b = b

unchanged :
    (source : SocketAddr) (request : ClientRequest) (o : Result RelayRuntimeError Reply)
    (b : Addresses) (j q : String)
    → (apply source request b j q ≡ b j q)
    → b j q ≡ applied source request o b j q
unchanged source request (ok _) b j q h = sym h
unchanged source request (err _) b j q h = refl

module _ (r : RelayRuntime) (v : IsConsistent r) (j q : String) where
  detach-applied :
      (source : SocketAddr) (k p : String)
      → let o = handle_detach r source k p in
        bound o.1.endpoints j q ≡ applied source (detach k p) o.0 (bound r.endpoints) j q
  unfolding remove_participant UdpRelay.detach
  detach-applied source k p =
      detach_cases r source k p
        (λ o. bound o.1.endpoints j q ≡ applied source (detach k p) o.0 (bound r.endpoints) j q)
        (λ e h. refl)
        λ ps at sender.
          if_cases {A = Outcome}
            (λ o. bound o.1.endpoints j q ≡ applied source (detach k p) o.0 (bound r.endpoints) j q)
            (null (Table.remove p ps)) _ _
            (λ gone.
              SessionStore.remove_cases r.relay.store
                (λ s.
                  bound (Table.remove k r.endpoints) j q
                  ≡ applied source (detach k p) (detach_reply k p s.0) (bound r.endpoints) j q)
                k (λ dead. cc (v.unpoisoned, dead))
                (λ live missing. cc (Slot-vacant (v.slots k) missing, at))
                (λ s live there. bound-remove r.endpoints k p ps j q at gone))
            (λ left. bound-insert r.endpoints k p ps j q at)

-- The endpoints hold exactly the addresses that the successful requests have set and removed.
pub handle_request-refines :
    (c : Crypto) (clock : Option ℕ) (r : RelayRuntime) (source : SocketAddr)
    (request : ClientRequest) (j q : String)
    → IsConsistent r
    → let o = handle_request c clock r source request in
      bound o.1.endpoints j q ≡ applied source request o.0 (bound r.endpoints) j q
unfolding handle_request handle_attach handle_forward to_relay_ticket
handle_request-refines c clock r source ping j q v = refl
handle_request-refines c clock r source (attach p wire) j q v =
    attach_cases c clock r source p (to_relay_ticket wire)
      (λ o. bound o.1.endpoints j q ≡ applied source (attach p wire) o.0 (bound r.endpoints) j q)
      (λ e. refl) (λ party good live absent. bound-bind r.endpoints wire.session_id p source j q)
      (λ s party good live there same. bound-bind r.endpoints wire.session_id p source j q)
handle_request-refines c clock r source (forward k p payload) j q v =
    unchanged source (forward k p payload) (handle_forward c r source k p payload).0
      (bound r.endpoints) j q refl
handle_request-refines c clock r source (detach k p) j q v = detach-applied r v j q source k p
